-- ===== src/Base/Text.antt =====
-- Go strings are sequences of bytes: what the program uses of `strings`, `path` and `strconv`.
use Prim.Native.Nat.{ℕ, ◌+◌, ◌-◌, ◌*◌}
use Prim.Native.Char.{code}
use Prim.Native.String.{String}
use mathlib.Core.Path.{◌≡◌, refl, subst}
use mathlib.Core.Logic.{◌↔◌}
use mathlib.Core.Bool.{Bool, true, false, ◌&&◌, ◌||◌}
use mathlib.Core.Option.{Option, none, some}
use mathlib.Core.List.{List, [], ◌∷◌, ◌++◌, reverse, map, reverse-append, reverse-reverse}
use native.Mathlib.Omega.{arith}
use hfdesk.Base.Tests.{leb, ◌==◌, if◌then◌else◌}

abbrev pub Bytes : Type 0
Bytes = List ℕ

-- The bytes of an ASCII literal.
abbrev pub codes : String → Bytes
codes String.[] = []
codes (String.◌∷◌ c s) = code c ∷ codes s

-- Equality of strings.
unfoldable pub bytes_eq : Bytes → Bytes → Bool
bytes_eq [] [] = true
bytes_eq [] (d ∷ t) = false
bytes_eq (c ∷ s) [] = false
bytes_eq (c ∷ s) (d ∷ t) = (c == d) && bytes_eq s t

pub bytes_eq_self : (s : Bytes) → bytes_eq s s ≡ true
unfolding bytes_eq
bytes_eq_self [] = refl
bytes_eq_self (c ∷ s) = ground (arith, bytes_eq_self s)

pub eq_of_bytes_eq : (s t : Bytes) → bytes_eq s t ≡ true → s ≡ t
unfolding bytes_eq
eq_of_bytes_eq [] [] h = refl
eq_of_bytes_eq [] (d ∷ t) h = ground arith
eq_of_bytes_eq (c ∷ s) [] h = ground arith
eq_of_bytes_eq (c ∷ s) (d ∷ t) h = ground (arith, eq_of_bytes_eq s t)

pub bytes_eq_iff : (s t : Bytes) → (bytes_eq s t ≡ true) ↔ (s ≡ t)
bytes_eq_iff s t = (eq_of_bytes_eq s t, λ e. subst (λ u. bytes_eq s u ≡ true) e (bytes_eq_self s))

-- `strings.HasPrefix`, `CutPrefix` and `TrimPrefix`.
unfoldable pub cut_prefix : Bytes → Bytes → Option Bytes
cut_prefix s [] = some s
cut_prefix [] (d ∷ t) = none
cut_prefix (c ∷ s) (d ∷ t) = let rest = cut_prefix s t in if c == d then rest else none

unfoldable pub has_prefix : Bytes → Bytes → Bool
has_prefix s [] = true
has_prefix [] (d ∷ t) = false
has_prefix (c ∷ s) (d ∷ t) = (c == d) && has_prefix s t

-- The white space below 128: tab, newline, vertical tab, form feed, carriage return and space.
abbrev pub is_space : ℕ → Bool
is_space c = (leb 9 c && leb c 13) || (c == 32)

-- `strings.TrimLeft` and `TrimRight` by a set of bytes, and `strings.Trim` by both.
unfoldable pub trim_left : (ℕ → Bool) → Bytes → Bytes
trim_left p [] = []
trim_left p (c ∷ s) = elim (p c) [ true ↦ trim_left p s | false ↦ c ∷ s ]

unfoldable pub trim : (ℕ → Bool) → Bytes → Bytes
unfolding trim_left
trim p s = reverse (trim_left p (reverse (trim_left p s)))

-- `strings.TrimSpace` on ASCII text.
abbrev pub trim_space : Bytes → Bytes
trim_space = trim is_space

-- `strings.ToLower` on ASCII text.
abbrev pub to_lower : ℕ → ℕ
to_lower c = if leb b'A' c && leb c b'Z' then c + 32 else c

-- `strings.EqualFold` on ASCII text.
abbrev pub equal_fold : Bytes → Bytes → Bool
equal_fold s t = bytes_eq (map to_lower s) (map to_lower t)

-- The longest prefix of bytes that pass the test, and the rest.
unfoldable pub span : (ℕ → Bool) → Bytes → Bytes × Bytes
span p [] = ([], [])
span p (c ∷ s) =
    let rest = span p s in elim (p c) [ true ↦ (c ∷ rest.0, rest.1) | false ↦ ([], c ∷ s) ]

-- `strings.Cut` at the first `sep`: the text before it and behind it.
unfoldable pub cut : ℕ → Bytes → Option (Bytes × Bytes)
cut sep [] = none
cut sep (c ∷ s) =
    let rest = cut sep s in
    if c == sep then some ([], s) else elim rest [ none ↦ none | some (a, b) ↦ some (c ∷ a, b) ]

-- `strings.FieldsFunc`, with the current word.
unfoldable pub add_word : Bytes → List Bytes → List Bytes
add_word [] words = words
add_word (c ∷ s) words = (c ∷ s) ∷ words

unfoldable pub fields_from : (ℕ → Bool) → Bytes → Bytes → List Bytes
unfolding add_word
fields_from p word [] = add_word word []
fields_from p word (c ∷ s) = elim (p c) [
  | true ↦ add_word word (fields_from p [] s)
  | false ↦ fields_from p (word ++ c ∷ []) s
]

unfoldable pub fields_by : (ℕ → Bool) → Bytes → List Bytes
unfolding fields_from
fields_by p s = fields_from p [] s

-- `strings.Fields` on ASCII text.
unfoldable pub fields : Bytes → List Bytes
unfolding fields_by
fields s = fields_by is_space s

-- `strings.Contains`.
unfoldable pub contains : Bytes → Bytes → Bool
unfolding has_prefix
contains [] t = has_prefix [] t
contains (c ∷ s) t = let rest = contains s t in has_prefix (c ∷ s) t || rest

-- `strings.Split` at a byte, with the current part.
unfoldable pub split_from : ℕ → Bytes → Bytes → List Bytes
split_from sep part [] = part ∷ []
split_from sep part (c ∷ s) = elim (c == sep) [
  | true ↦ part ∷ split_from sep [] s
  | false ↦ split_from sep (part ++ c ∷ []) s
]

unfoldable pub split : ℕ → Bytes → List Bytes
unfolding split_from
split sep s = split_from sep [] s

-- The number that a text of decimal digits spells, from the number that stands before it.
unfoldable pub digits : ℕ → Bytes → Option ℕ
digits n [] = some n
digits n (c ∷ s) =
    let rest = digits (n * 10 + (c - b'0')) s in if leb b'0' c && leb c b'9' then rest else none

trim_left-keeps : (p : ℕ → Bool) (c : ℕ) (s : Bytes) → p c ≡ false → trim_left p (c ∷ s) ≡ c ∷ s
unfolding trim_left
trim_left-keeps p c s h = ground (arith, h)

-- A text whose first and last byte stay is left alone.
pub trim-keeps :
    (p : ℕ → Bool) (c d : ℕ) (s : Bytes)
    → p c ≡ false
    → p d ≡ false
    → trim p (c ∷ (s ++ d ∷ [])) ≡ c ∷ (s ++ d ∷ [])
unfolding trim
trim-keeps p c d s hc hd =
    rw (trim_left-keeps p c (s ++ d ∷ []) hc, reverse-append (c ∷ s) (d ∷ []))
      (rw (trim_left-keeps p d (reverse (c ∷ s)) hd)
        (rw (reverse-append (d ∷ []) (reverse (c ∷ s)), reverse-reverse)))
