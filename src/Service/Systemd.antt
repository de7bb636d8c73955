-- ===== src/Service/Systemd.antt =====
-- The quoting of unit files in internal/service/manager_linux.go, and the splitter that reads it back.
-- Texts are bytes; what the code writes rune by rune is the same on valid UTF-8.
pub mod Quoting
use hfdesk.Base.{
  ℕ, ◌+◌, ◌/◌, ◌%◌, ltb, Option, none, some, Bool, true, false, not, ◌&&◌, ◌||◌, List, [], ◌∷◌,
  ◌++◌, ◌==◌, map, if◌then◌else◌, any, Bytes, codes,
}

-- The bytes that the quoting tells apart.
pub data Sort : Type 0 where
  blank newline single_quote double_quote backslash percent dollar ordinary : Sort

unfoldable pub sort : ℕ → Sort
sort c =
    if c == b' ' || c == b'\t'
    then blank
    else (if c == b'\n' || c == b'\r'
        then newline
        else (if c == b'\''
            then single_quote
            else (if c == b'"'
                then double_quote
                else (if c == b'\\'
                    then backslash
                    else (if c == b'%'
                        then percent
                        else (if c == b'$' then dollar else ordinary))))))

-- One byte in double quotes; a dollar sign is doubled in a command line only.
unfoldable pub escape : Bool → ℕ → Bytes
unfolding sort
escape command c = elim (sort c) [
  | double_quote ↦ codes "\\\""
  | backslash ↦ codes "\\\\"
  | percent ↦ codes "%%"
  | dollar ↦ if command then codes "$$" else c ∷ []
  | _ ↦ c ∷ []
]

unfoldable pub escape_all : Bool → Bytes → Bytes
unfolding escape
escape_all command [] = []
escape_all command (c ∷ s) = escape command c ++ escape_all command s

unfoldable pub systemd_quote_always : Bytes → Bytes
unfolding escape_all
systemd_quote_always value = b'"' ∷ escape_all false value ++ b'"' ∷ []

unfoldable pub systemd_quote_command_always : Bytes → Bytes
unfolding escape_all
systemd_quote_command_always value = b'"' ∷ escape_all true value ++ b'"' ∷ []

-- The bytes that make a value need quotes: those of `strings.ContainsAny`.
unfoldable pub is_special : Bool → ℕ → Bool
unfolding sort
is_special command c = elim (sort c) [
  | newline ↦ false
  | ordinary ↦ false
  | dollar ↦ command
  | _ ↦ true
]

unfoldable pub systemd_quote : Bytes → Bytes
unfolding is_special systemd_quote_always
systemd_quote value = elim value [
  | [] ↦ codes "\"\""
  | c ∷ s ↦ if any (is_special false) (c ∷ s) then systemd_quote_always (c ∷ s) else c ∷ s
]

unfoldable pub systemd_quote_command : Bytes → Bytes
unfolding is_special systemd_quote_command_always
systemd_quote_command value = elim value [
  | [] ↦ codes "\"\""
  | c ∷ s ↦ if any (is_special true) (c ∷ s) then systemd_quote_command_always (c ∷ s) else c ∷ s
]

-- `string(c)` of a byte is the text of that code point.
unfoldable pub unescape_systemd_char : ℕ → Bytes
unescape_systemd_char c =
    if c == b'n'
    then codes "\n"
    else (if c == b't'
        then codes "\t"
        else (if c == b'r'
            then codes "\r"
            else (if c == b's'
                then codes " "
                else (if ltb c 128 then c ∷ [] else (192 + c / 64) ∷ (128 + c % 64) ∷ []))))

unfoldable pub control_character : Bytes → Option ℕ
control_character [] = none
control_character (c ∷ s) = let rest = control_character s in if ltb c 32 then some c else rest

-- Where the loop of `splitSystemdWords` stands: outside of quotes or in one of the two kinds.
pub data Mode : Type 0 where
  bare in_single in_double : Mode

-- What the loop does at a byte: end the word, go into or out of quotes, or write a byte; the last also
-- takes the byte behind it.
pub data Step : Type 0 where
  end_word : Step
  change : Mode → Step
  write : Bytes → Step
  write_pair : Bytes → Step

-- Behind a backslash, with the byte that follows; at the end of the line it stands for itself in double
-- quotes and for nothing outside.
unfoldable pub after_backslash : Mode → Bytes → Step
unfolding unescape_systemd_char
after_backslash m (d ∷ s) = write_pair (unescape_systemd_char d)
after_backslash in_double [] = write (codes "\\")
after_backslash _ [] = change bare

unfoldable pub after_percent : Bytes → Step
after_percent [] = write (codes "%")
after_percent (d ∷ s) = if d == b'%' then write_pair (codes "%") else write (codes "%")

unfoldable pub step : Mode → ℕ → Bytes → Step
unfolding sort after_backslash after_percent
step bare c rest = elim (sort c) [
  | blank ↦ end_word
  | newline ↦ end_word
  | single_quote ↦ change in_single
  | double_quote ↦ change in_double
  | backslash ↦ after_backslash bare rest
  | percent ↦ after_percent rest
  | dollar ↦ write (c ∷ [])
  | ordinary ↦ write (c ∷ [])
]
step in_single c rest = if c == b'\'' then change bare else write (c ∷ [])
step in_double c rest = elim (sort c) [
  | double_quote ↦ change bare
  | backslash ↦ after_backslash in_double rest
  | percent ↦ after_percent rest
  | _ ↦ write (c ∷ [])
]

-- The words so far end where one has begun.
flush_word : Bool → Bytes → List Bytes → List Bytes
flush_word has word words = if has then word ∷ words else words

-- The loop, with the current word, whether it has begun, and whether the next byte was taken already.
unfoldable pub split_words : Bool → Mode → Bool → Bytes → Bytes → List Bytes
unfolding step flush_word
split_words skip m has word [] = flush_word has word []
split_words true m has word (c ∷ s) = split_words false m has word s
split_words false m has word (c ∷ s) = elim (step m c s) [
  | end_word ↦ flush_word has word (split_words false bare false [] s)
  | change n ↦ split_words false n true word s
  | write d ↦ split_words false m true (word ++ d) s
  | write_pair d ↦ split_words true m true (word ++ d) s
]

unfoldable pub split_systemd_words : Bytes → List Bytes
unfolding split_words
split_systemd_words line = split_words false bare false [] line

-- `strings.ReplaceAll(word, "$$", "$")`; a dollar sign may be pending.
unfoldable pub undollar : Bool → Bytes → Bytes
undollar false [] = []
undollar true [] = b'$' ∷ []
undollar pending (c ∷ s) =
    let single = undollar false s in
    let open_ = undollar true s in
    if c == b'$'
    then (if pending then b'$' ∷ single else open_)
    else (if pending then b'$' ∷ c ∷ single else c ∷ single)

unfoldable pub resolve_systemd_dollars : List Bytes → List Bytes
unfolding undollar
resolve_systemd_dollars words = map (undollar false) words

-- `strings.Join(words, " ")`.
unfoldable pub join_words : List Bytes → Bytes
join_words [] = []
join_words (w ∷ ws) = elim ws [ [] ↦ w | _ ∷ _ ↦ w ++ b' ' ∷ join_words ws ]
