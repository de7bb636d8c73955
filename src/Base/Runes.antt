-- ===== src/Base/Runes.antt =====
-- `strings.TrimSpace` of texts in UTF-8: the white space that is not ASCII is encoded in two or three
-- bytes, which are tested from either end of a text.
use Prim.Native.Nat.{ℕ}
use mathlib.Core.Path.{◌≡◌}
use mathlib.Core.Bool.{Bool, true, false, ◌&&◌, ◌||◌}
use mathlib.Core.List.{[], ◌∷◌, ◌++◌, reverse, reverse-append, reverse-reverse}
use native.Mathlib.Omega.{arith}
use hfdesk.Base.Tests.{ltb, leb, if◌then◌else◌, ◌==◌}
use hfdesk.Base.Text.{Bytes, is_space}

-- U+0085 and U+00A0.
abbrev pub is_space_2 : ℕ → ℕ → Bool
is_space_2 a b = a == 194 && (b == 133 || b == 160)

-- U+1680, U+2000 to U+200A, U+2028, U+2029, U+202F, U+205F and U+3000.
abbrev pub is_space_3 : ℕ → ℕ → ℕ → Bool
is_space_3 a b c =
    (a == 225 && (b == 154 && c == 128))
    || (a == 226
        && (b == 128 && ((leb 128 c && leb c 138) || (c == 168 || (c == 169 || c == 175)))))
    || (a == 226 && (b == 129 && c == 159))
    || (a == 227 && (b == 128 && c == 128))

unfoldable pub trim_runes : (ℕ → ℕ → Bool) → (ℕ → ℕ → ℕ → Bool) → Bytes → Bytes
trim_runes two three [] = []
trim_runes two three (a ∷ []) = if is_space a then [] else a ∷ []
trim_runes two three (a ∷ b ∷ []) = elim (is_space a) [
  | true ↦ trim_runes two three (b ∷ [])
  | false ↦ if two a b then [] else a ∷ b ∷ []
]
trim_runes two three (a ∷ b ∷ c ∷ s) = elim (is_space a) [
  | true ↦ trim_runes two three (b ∷ c ∷ s)
  | false ↦ elim (two a b) [
    | true ↦ trim_runes two three (c ∷ s)
    | false ↦ elim (three a b c) [ true ↦ trim_runes two three s | false ↦ a ∷ b ∷ c ∷ s ]
  ]
]

abbrev pub trim_left_runes : Bytes → Bytes
trim_left_runes s = trim_runes is_space_2 is_space_3 s

-- The same from the end of a text, which comes in reverse.
abbrev pub trim_right_runes : Bytes → Bytes
trim_right_runes s = trim_runes (λ a b. is_space_2 b a) (λ a b c. is_space_3 c b a) s

unfoldable pub trim_space_runes : Bytes → Bytes
unfolding trim_runes
trim_space_runes s = reverse (trim_right_runes (reverse (trim_left_runes s)))

trim_runes-keeps :
    (two : ℕ → ℕ → Bool) (three : ℕ → ℕ → ℕ → Bool) (a : ℕ) (s : Bytes)
    → is_space a ≡ false
    → ((b : ℕ) → two a b ≡ false)
    → ((b c : ℕ) → three a b c ≡ false)
    → trim_runes two three (a ∷ s) ≡ a ∷ s
unfolding trim_runes
trim_runes-keeps two three a [] h k l = rw h
trim_runes-keeps two three a (b ∷ []) h k l = rw (trim_runes, h, k b)
trim_runes-keeps two three a (b ∷ c ∷ s) h k l = rw (trim_runes, h, k b, l b c)

-- A text that begins and ends with ASCII bytes that are not white space stays as it is.
pub trim_space_runes-keeps :
    (c d : ℕ) (s : Bytes)
    → is_space c ≡ false
    → ltb c 128 ≡ true
    → is_space d ≡ false
    → ltb d 128 ≡ true
    → trim_space_runes (c ∷ (s ++ d ∷ [])) ≡ c ∷ (s ++ d ∷ [])
unfolding trim_space_runes
trim_space_runes-keeps c d s hc nc hd nd =
    rw
      (
        trim_runes-keeps is_space_2 is_space_3 c (s ++ d ∷ []) hc (λ b. ground (arith, nc))
            (λ a b. ground (arith, nc)),
        reverse-append (c ∷ s) (d ∷ []),
      )
      (rw
        (trim_runes-keeps (λ a b. is_space_2 b a) (λ a b c. is_space_3 c b a) d (reverse (c ∷ s)) hd
          (λ b. ground (arith, nd)) (λ a b. ground (arith, nd)))
        (rw (reverse-append (d ∷ []) (reverse (c ∷ s)), reverse-reverse)))
