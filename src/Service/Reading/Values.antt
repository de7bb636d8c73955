-- ===== src/Service/Reading/Values.antt =====
-- The values that internal/service/manager_linux.go writes behind the keys of a unit file: on one line,
-- and without a space at the end.
use hfdesk.Base.{
  ℕ, ◌≡◌, refl, sym, ap, ◌∙◌, Bool, true, false, ◌||◌, none, List, [], ◌∷◌, ◌++◌, append_assoc,
  arith, ◌==◌, ltb, map, if◌then◌else◌, if-rule, any, Bytes, codes, is_space, trim_space_runes,
  trim_space_runes-keeps,
}
use hfdesk.Service.Systemd.{
  Sort, blank, newline, single_quote, double_quote, backslash, percent, dollar, ordinary, sort,
  escape, escape_all, is_special, systemd_quote, systemd_quote_command, systemd_quote_always,
  systemd_quote_command_always, join_words, control_character,
}
use hfdesk.Service.Systemd.Quoting.{AllPrintable}

abbrev pub is_newline : ℕ → Bool
is_newline c = c == b'\n'

-- The last byte is one of ASCII.
abbrev pub ends_narrow : Bytes → Bool
ends_narrow [] = true
ends_narrow (c ∷ []) = ltb c 128
ends_narrow (c ∷ d ∷ s) = ends_narrow (d ∷ s)

-- A text without control characters whose last byte is one of ASCII.
abbrev pub IsPlain : Bytes → Type 0
IsPlain s = (control_character s ≡ none) × (ends_narrow s ≡ true)

abbrev pub AllPlain : List Bytes → Type 0
AllPlain [] = Unit {0}
AllPlain (s ∷ ss) = IsPlain s × AllPlain ss

pub AllPlain-AllPrintable : (ss : List Bytes) → AllPlain ss → AllPrintable ss
AllPlain-AllPrintable [] h = tt
AllPlain-AllPrintable (s ∷ ss) h = (h.0.0, AllPlain-AllPrintable ss h.1)

pub record IsValue (v : Bytes) : Type 0 where
  pub front : Bytes
  pub last : ℕ
  pub spelled : v ≡ front ++ last ∷ []
  pub solid : is_space last ≡ false
  pub narrow : ltb last 128 ≡ true
  pub unbroken : any is_newline v ≡ false

pub any-append : (p : ℕ → Bool) (a b : Bytes) → any p (a ++ b) ≡ (any p a || any p b)
any-append p [] b = refl
any-append p (c ∷ a) b = let rec = any-append p a b in ground (arith, rec)

pub IsValue-append : (a b : Bytes) → any is_newline a ≡ false → IsValue b → IsValue (a ++ b)
IsValue-append a b h v = record {
  front = a ++ v.front;
  last = v.last;
  spelled = ap (λ t. a ++ t) v.spelled ∙ sym (append_assoc a v.front (v.last ∷ []));
  solid = v.solid;
  narrow = v.narrow;
  unbroken =
      let both = any-append is_newline a b in let own = v.unbroken in ground (arith, h, both, own);
}

-- Trimming leaves a line of a key and a value alone.
pub trim_line :
    (c : ℕ) (key v : Bytes)
    → is_space c ≡ false
    → IsValue v
    → ltb c 128 ≡ true
    → trim_space_runes ((c ∷ key) ++ v) ≡ (c ∷ key) ++ v
trim_line c key v h value n =
    let whole : c ∷ (key ++ v) ≡ c ∷ ((key ++ value.front) ++ value.last ∷ []) =
      ap (λ t. c ∷ (key ++ t)) value.spelled
      ∙ ap (λ t. c ∷ t) (sym (append_assoc key value.front (value.last ∷ []))) in
    ap trim_space_runes whole
    ∙ (trim_space_runes-keeps c value.last (key ++ value.front) h n value.solid value.narrow
        ∙ sym whole)

escape-unbroken :
    (command : Bool) (c : ℕ) → ltb c 32 ≡ false → any is_newline (escape command c) ≡ false
unfolding escape
escape-unbroken command c h = go (sort c) command
  where
    go :
        (k : Sort) (b : Bool)
        → any is_newline (elim k as (λ _. Bytes) [
          | double_quote ↦ codes "\\\""
          | backslash ↦ codes "\\\\"
          | percent ↦ codes "%%"
          | dollar ↦ if b then codes "$$" else c ∷ []
          | _ ↦ c ∷ []
        ])
          ≡ false
    go double_quote b = refl
    go backslash b = refl
    go percent b = refl
    go dollar true = refl
    go dollar false = ground (arith, h)
    go blank b = ground (arith, h)
    go newline b = ground (arith, h)
    go single_quote b = ground (arith, h)
    go ordinary b = ground (arith, h)

escape_all-unbroken :
    (command : Bool) (s : Bytes)
    → control_character s ≡ none
    → any is_newline (escape_all command s) ≡ false
unfolding escape_all control_character
escape_all-unbroken command [] h = refl
escape_all-unbroken command (c ∷ s) h =
    let here = escape-unbroken command c (ground (arith, h)) in
    let rest = escape_all-unbroken command s (ground (arith, h)) in
    let both = any-append is_newline (escape command c) (escape_all command s) in
    ground (arith, here, rest, both)

in_quotes-IsValue :
    (command : Bool) (s : Bytes)
    → control_character s ≡ none
    → IsValue (b'"' ∷ escape_all command s ++ b'"' ∷ [])
in_quotes-IsValue command s h =
    let body = escape_all-unbroken command s h in
    let both = any-append is_newline (escape_all command s) (b'"' ∷ []) in
    record {
      front = b'"' ∷ escape_all command s;
      last = b'"';
      spelled = refl;
      solid = refl;
      narrow = refl;
      unbroken = ground (arith, body, both);
    }

plain-IsValue :
    (command : Bool) (c : ℕ) (s : Bytes)
    → any (is_special command) (c ∷ s) ≡ false
    → control_character (c ∷ s) ≡ none
    → ends_narrow (c ∷ s) ≡ true
    → IsValue (c ∷ s)
unfolding is_special sort control_character
plain-IsValue command c [] h k n = record {
  narrow = n;
  front = [];
  last = c;
  spelled = refl;
  solid = ground (arith, h, k);
  unbroken = ground (arith, k);
}
plain-IsValue command c (d ∷ s) h k n =
    IsValue-append (c ∷ []) (d ∷ s) (ground (arith, k))
      (plain-IsValue command d s (ground (arith, h)) (ground (arith, k)) n)

pub quote_command-IsValue : (s : Bytes) → IsPlain s → IsValue (systemd_quote_command s)
unfolding systemd_quote_command
quote_command-IsValue [] h = in_quotes-IsValue true [] h.0
quote_command-IsValue (c ∷ s) h =
    if-rule IsValue (any (is_special true) (c ∷ s)) (systemd_quote_command_always (c ∷ s)) (c ∷ s)
      (λ _. in_quotes-IsValue true (c ∷ s) h.0) (λ e. plain-IsValue true c s e h.0 h.1)

pub quote-IsValue : (s : Bytes) → IsPlain s → IsValue (systemd_quote s)
unfolding systemd_quote
quote-IsValue [] h = in_quotes-IsValue false [] h.0
quote-IsValue (c ∷ s) h =
    if-rule IsValue (any (is_special false) (c ∷ s)) (systemd_quote_always (c ∷ s)) (c ∷ s)
      (λ _. in_quotes-IsValue false (c ∷ s) h.0) (λ e. plain-IsValue false c s e h.0 h.1)

pub quote_always-IsValue :
    (s : Bytes) → control_character s ≡ none → IsValue (systemd_quote_command_always s)
unfolding systemd_quote_command_always
quote_always-IsValue s h = in_quotes-IsValue true s h

-- Values with spaces between them.
pub join-IsValue :
    (w : Bytes) (ws : List Bytes)
    → IsValue w
    → AllPlain ws
    → IsValue (join_words (w ∷ map systemd_quote_command ws))
unfolding join_words
join-IsValue w [] v h = v
join-IsValue w (u ∷ ws) v h =
    IsValue-append w (b' ' ∷ join_words (map systemd_quote_command (u ∷ ws))) v.unbroken (
      IsValue-append (b' ' ∷ []) _ refl
        (join-IsValue (systemd_quote_command u) ws (quote_command-IsValue u h.0) h.1))
