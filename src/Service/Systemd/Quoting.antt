-- ===== src/Service/Systemd/Quoting.antt =====
-- What internal/service/manager_linux.go writes into a command line is what it reads back.
use hfdesk.Base.{
  ℕ, ◌≡◌, refl, sym, ap, ◌∙◌, Bool, true, false, none, List, [], ◌∷◌, ◌++◌, append-nil,
  append_assoc, arith, ◌==◌, ltb, map, if◌then◌else◌, if-rule, any, Bytes, codes,
}
use hfdesk.Service.Systemd.{
  Sort, blank, newline, single_quote, double_quote, backslash, percent, dollar, ordinary, sort,
  escape, escape_all, is_special, systemd_quote, systemd_quote_command,
  systemd_quote_command_always, bare, in_single, in_double, Step, end_word, change, write,
  write_pair, control_character, step, flush_word, split_words, split_systemd_words, undollar,
  resolve_systemd_dollars, join_words, after_backslash, after_percent,
}

-- A byte as the reader leaves it: in a command line the dollar signs are still doubled.
doubled : Bool → ℕ → Bytes
doubled command c = elim (sort c) [ dollar ↦ if command then codes "$$" else c ∷ [] | _ ↦ c ∷ [] ]

doubled_all : Bool → Bytes → Bytes
doubled_all command [] = []
doubled_all command (c ∷ s) = doubled command c ++ doubled_all command s

sort_of_byte :
    (c : ℕ)
    → (sort c ≡ double_quote → c ≡ b'"')
      × (sort c ≡ backslash → c ≡ b'\\')
      × (sort c ≡ percent → c ≡ b'%')
      × (sort c ≡ dollar → c ≡ b'$')
unfolding sort
sort_of_byte c = (ground arith, ground arith, ground arith, ground arith)

quoted_byte :
    (command : Bool) (c : ℕ) (word rest : Bytes)
    → split_words false in_double true word (escape command c ++ rest)
      ≡ split_words false in_double true (word ++ doubled command c) rest
unfolding escape doubled split_words step
quoted_byte command c word rest = go (sort c) refl command
  where
    same_byte : ℕ → List Bytes
    same_byte d = split_words false in_double true (word ++ d ∷ []) rest

    go :
        (k : Sort)
        → sort c ≡ k
        → (b : Bool)
        → split_words false in_double true word (
            elim k [
              | double_quote ↦ codes "\\\""
              | backslash ↦ codes "\\\\"
              | percent ↦ codes "%%"
              | dollar ↦ if b then codes "$$" else c ∷ []
              | _ ↦ c ∷ []
            ]
            ++ rest)
          ≡ split_words false in_double true
              (word ++ elim k [ dollar ↦ if b then codes "$$" else c ∷ [] | _ ↦ c ∷ [] ])
              rest
    go blank e b = ground (arith, e)
    go newline e b = ground (arith, e)
    go single_quote e b = ground (arith, e)
    go double_quote e b = ap same_byte (sym ((sort_of_byte c).0 e))
    go backslash e b = ap same_byte (sym ((sort_of_byte c).1 e))
    go percent e b = ap same_byte (sym ((sort_of_byte c).2 e))
    go dollar e true =
        ap (λ w. split_words false in_double true w rest)
          (append_assoc word (codes "$") (codes "$"))
    go dollar e false = ground (arith, e)
    go ordinary e b = ground (arith, e)

-- The text in double quotes, and the quote that ends it.
quoted_text :
    (command : Bool) (s word rest : Bytes)
    → split_words false in_double true word (escape_all command s ++ b'"' ∷ rest)
      ≡ split_words false bare true (word ++ doubled_all command s) rest
unfolding escape_all doubled_all split_words step
quoted_text command [] word rest =
    ap (λ w. split_words false bare true w rest) (sym (append-nil word))
quoted_text command (c ∷ s) word rest =
    let one = quoted_byte command c word (escape_all command s ++ b'"' ∷ rest) in
    let more = quoted_text command s (word ++ doubled command c) rest in
    let text = append_assoc (escape command c) (escape_all command s) (b'"' ∷ rest) in
    let kept = append_assoc word (doubled command c) (doubled_all command s) in
    cc (one, more, text, kept)

-- A byte that needs no quotes is written as it stands.
plain_byte :
    (command : Bool) (c : ℕ) (has : Bool) (word rest : Bytes)
    → is_special command c ≡ false
    → ltb c 32 ≡ false
    → split_words false bare has word (c ∷ rest)
      ≡ split_words false bare true (word ++ doubled command c) rest
unfolding is_special doubled split_words step
plain_byte command c has word rest h k = go (sort c) refl command h
  where
    go :
        (b : Sort)
        → sort c ≡ b
        → (command : Bool)
        → elim b as (λ _. Bool) [ newline ↦ false | ordinary ↦ false | dollar ↦ command | _ ↦ true ]
          ≡ false
        → elim (elim b as (λ _. Step) [
          | blank ↦ end_word
          | newline ↦ end_word
          | single_quote ↦ change in_single
          | double_quote ↦ change in_double
          | backslash ↦ after_backslash bare rest
          | percent ↦ after_percent rest
          | dollar ↦ write (c ∷ [])
          | ordinary ↦ write (c ∷ [])
        ])
            as (λ _. List Bytes) [
              | end_word ↦ flush_word has word (split_words false bare false [] rest)
              | change n ↦ split_words false n true word rest
              | write d ↦ split_words false bare true (word ++ d) rest
              | write_pair d ↦ split_words true bare true (word ++ d) rest
            ]
          ≡ split_words false bare true
              (word ++ elim b [ dollar ↦ if command then codes "$$" else c ∷ [] | _ ↦ c ∷ [] ])
              rest
    go newline e cmd f = absurd (ground (arith, e, k))
    go dollar e false f = refl
    go ordinary e cmd f = refl
    go dollar e true f = absurd (cc (sym f))
    go blank e cmd f = absurd (cc (sym f))
    go single_quote e cmd f = absurd (cc (sym f))
    go double_quote e cmd f = absurd (cc (sym f))
    go backslash e cmd f = absurd (cc (sym f))
    go percent e cmd f = absurd (cc (sym f))

plain_text :
    (command : Bool) (c : ℕ) (s : Bytes) (has : Bool) (word rest : Bytes)
    → any (is_special command) (c ∷ s) ≡ false
    → control_character (c ∷ s) ≡ none
    → split_words false bare has word ((c ∷ s) ++ rest)
      ≡ split_words false bare true (word ++ doubled_all command (c ∷ s)) rest
unfolding doubled_all control_character
plain_text command c [] has word rest h k =
    let one = plain_byte command c has word rest (ground (arith, h)) (ground (arith, k)) in
    let end = append-nil (doubled command c) in cc (one, end)
plain_text command c (d ∷ s) has word rest h k =
    let one =
      plain_byte command c has word ((d ∷ s) ++ rest) (ground (arith, h)) (ground (arith, k)) in
    let more =
      plain_text command d s true (word ++ doubled command c) rest (ground (arith, h))
        (ground (arith, k)) in
    let kept = append_assoc word (doubled command c) (doubled_all command (d ∷ s)) in
    cc (one, more, kept)

-- A value that the writer quotes where it must, in front of the rest of a line.
abbrev quote : Bool → Bytes → Bytes
quote command value = if command then systemd_quote_command value else systemd_quote value

abbrev in_quotes : Bool → Bytes → Bytes
in_quotes command value = b'"' ∷ escape_all command value ++ b'"' ∷ []

quote_eq :
    (command : Bool) (c : ℕ) (s : Bytes)
    → quote command (c ∷ s)
      ≡ (if any (is_special command) (c ∷ s) then in_quotes command (c ∷ s) else c ∷ s)
unfolding systemd_quote systemd_quote_command
quote_eq true c s = refl
quote_eq false c s = refl

quoted_value :
    (command : Bool) (value rest : Bytes)
    → split_words false bare false [] (in_quotes command value ++ rest)
      ≡ split_words false bare true (doubled_all command value) rest
unfolding split_words
quoted_value command value rest =
    ap (split_words false in_double true [])
      (append_assoc (escape_all command value) (b'"' ∷ []) rest)
    ∙ quoted_text command value [] rest

value_text :
    (command : Bool) (value rest : Bytes)
    → control_character value ≡ none
    → split_words false bare false [] (quote command value ++ rest)
      ≡ split_words false bare true (doubled_all command value) rest
unfolding systemd_quote systemd_quote_command
value_text true [] rest k = quoted_value true [] rest
value_text false [] rest k = quoted_value false [] rest
value_text command (c ∷ s) rest k =
    ap (λ t. split_words false bare false [] (t ++ rest)) (quote_eq command c s)
    ∙ if-rule
        (λ t.
          split_words false bare false [] (t ++ rest)
          ≡ split_words false bare true (doubled_all command (c ∷ s)) rest)
        (any (is_special command) (c ∷ s)) (in_quotes command (c ∷ s)) (c ∷ s)
        (λ _. quoted_value command (c ∷ s) rest) (λ e. plain_text command c s false [] rest e k)

-- What the words are as the reader leaves them, dollar signs still doubled.
abbrev pub AllPrintable : List Bytes → Type 0
AllPrintable [] = Unit {0}
AllPrintable (w ∷ ws) = (control_character w ≡ none) × AllPrintable ws

words_text :
    (words : List Bytes)
    → AllPrintable words
    → split_words false bare false [] (join_words (map systemd_quote_command words))
      ≡ map (doubled_all true) words
unfolding join_words split_words
words_text [] h = refl
words_text (w ∷ []) h =
    ap (split_words false bare false []) (sym (append-nil (systemd_quote_command w)))
    ∙ value_text true w [] h.0
words_text (w ∷ v ∷ words) h =
    value_text true w (b' ' ∷ join_words (map systemd_quote_command (v ∷ words))) h.0
    ∙ ap (λ ws. doubled_all true w ∷ ws) (words_text (v ∷ words) h.1)

sort_of_dollar :
    (c : ℕ) → (c == b'$') ≡ (elim (sort c) as (λ _. Bool) [ dollar ↦ true | _ ↦ false ])
unfolding sort
sort_of_dollar c = ground arith

undollar-doubled : (s : Bytes) → undollar false (doubled_all true s) ≡ s
unfolding undollar doubled_all doubled
undollar-doubled [] = refl
undollar-doubled (c ∷ s) =
    let rec = undollar-doubled s in
    let is = sort_of_dollar c in
    let dollar_byte = (sort_of_byte c).3 in ground (arith, rec, is, dollar_byte)

plain-doubled : (s : Bytes) → doubled_all false s ≡ s
unfolding doubled_all doubled
plain-doubled [] = refl
plain-doubled (c ∷ s) = let rec = plain-doubled s in ground (arith, rec)

map-undollar : (words : List Bytes) → map (undollar false) (map (doubled_all true) words) ≡ words
map-undollar [] = refl
map-undollar (w ∷ words) =
    let here = undollar-doubled w in let rest = map-undollar words in cc (here, rest)

-- A command line of words without control characters, whatever quotes, backslashes, percent and dollar
-- signs they have, is read back as the words that were written.
pub split-quote :
    (words : List Bytes)
    → AllPrintable words
    → resolve_systemd_dollars (split_systemd_words (join_words (map systemd_quote_command words)))
      ≡ words
unfolding resolve_systemd_dollars split_systemd_words
split-quote words h = ap (map (undollar false)) (words_text words h) ∙ map-undollar words

-- The first word stands in quotes in any case.
pub split-quote_always :
    (word : Bytes) (words : List Bytes)
    → AllPrintable words
    → resolve_systemd_dollars (
        split_systemd_words
          (join_words (systemd_quote_command_always word ∷ map systemd_quote_command words)))
      ≡ word ∷ words
unfolding resolve_systemd_dollars split_systemd_words systemd_quote_command_always join_words
    split_words
split-quote_always word words h =
    ap (map (undollar false)) (read words h) ∙ map-undollar (word ∷ words)
  where
    read :
        (ws : List Bytes)
        → AllPrintable ws
        → split_words false bare false []
            (join_words (in_quotes true word ∷ map systemd_quote_command ws))
          ≡ map (doubled_all true) (word ∷ ws)
    read [] k =
        ap (split_words false bare false []) (sym (append-nil (in_quotes true word)))
        ∙ quoted_value true word []
    read (v ∷ ws) k =
        quoted_value true word (b' ' ∷ join_words (map systemd_quote_command (v ∷ ws)))
        ∙ ap (λ us. doubled_all true word ∷ us) (words_text (v ∷ ws) k)

-- A setting is one word, read back without the resolution of dollar signs.
pub split-setting :
    (value : Bytes)
    → control_character value ≡ none
    → split_systemd_words (systemd_quote value) ≡ value ∷ []
unfolding split_systemd_words split_words
split-setting value h =
    ap (split_words false bare false []) (sym (append-nil (systemd_quote value)))
    ∙ (value_text false value [] h ∙ ap (λ w. w ∷ []) (plain-doubled value))
