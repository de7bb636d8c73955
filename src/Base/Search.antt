-- ===== src/Base/Search.antt =====
-- Searching a text for a token that stands between delimiters.
use Prim.Native.Nat.{ℕ, ◌≤◌}
use mathlib.Core.Path.{◌≡◌, refl}
use mathlib.Core.Bool.{Bool, true, false, ◌&&◌, ◌||◌}
use mathlib.Core.Option.{Option, none, some}
use mathlib.Core.List.{[], ◌∷◌}
use native.Mathlib.Omega.{arith}
use hfdesk.Base.Tests.{if◌then◌else◌, if-rule}
use hfdesk.Base.Lists.{length}
use hfdesk.Base.Text.{Bytes, cut_prefix, has_prefix}

abbrev pub starts_free : (ℕ → Bool) → Bytes → Bool
starts_free p [] = true
starts_free p (c ∷ s) = p c

-- `strings.Index`: the text before the first occurrence, reversed onto what stands before, and the
-- text from it on.
unfoldable pub index_from : Bytes → Bytes → Bytes → Option (Bytes × Bytes)
index_from token before [] = if has_prefix [] token then some (before, []) else none
index_from token before (c ∷ s) =
    let rest = index_from token (c ∷ before) s in
    if has_prefix (c ∷ s) token then some (before, c ∷ s) else rest

-- A token here, between delimiters or the ends of the text; `before` is the text before it, reversed.
unfoldable pub bounded_here : (ℕ → Bool) → Bytes → Bytes → Bytes → Bool
bounded_here p token before s =
    starts_free p before
    && elim (cut_prefix s token) [ none ↦ false | some behind ↦ starts_free p behind ]

-- A bounded token at some position.
unfoldable pub bounded_somewhere : (ℕ → Bool) → Bytes → Bytes → Bytes → Bool
unfolding bounded_here
bounded_somewhere p token before [] = bounded_here p token before []
bounded_somewhere p token before (c ∷ s) =
    let rest = bounded_somewhere p token (c ∷ before) s in
    bounded_here p token before (c ∷ s) || rest

cut_prefix-none : (s t : Bytes) → has_prefix s t ≡ false → cut_prefix s t ≡ none
unfolding cut_prefix has_prefix
cut_prefix-none s [] h = absurd (ground arith)
cut_prefix-none [] (d ∷ t) h = refl
cut_prefix-none (c ∷ s) (d ∷ t) h = let rec = cut_prefix-none s t in ground arith

no_bounded_here :
    (p : ℕ → Bool) (token before s : Bytes)
    → has_prefix s token ≡ false
    → bounded_here p token before s ≡ false
unfolding bounded_here
no_bounded_here p token before s h = let none_ = cut_prefix-none s token h in ground arith

-- What the first occurrence says of all positions.
unfoldable pub SearchedTo : (ℕ → Bool) → Bytes → Bytes → Bytes → Option (Bytes × Bytes) → Type 0
SearchedTo p token before s none = bounded_somewhere p token before s ≡ false
SearchedTo p token before s (some (front, found)) =
    (bounded_somewhere p token before s ≡ bounded_somewhere p token front found)
    × (length found ≤ length s)

pub index_from-SearchedTo :
    (p : ℕ → Bool) (token before s : Bytes)
    → SearchedTo p token before s (index_from token before s)
unfolding SearchedTo index_from bounded_somewhere
index_from-SearchedTo p token before [] =
    if-rule (SearchedTo p token before []) (has_prefix [] token) _ _ (λ _. (refl, omega arith))
      (λ off. no_bounded_here p token before [] off)
index_from-SearchedTo p token before (c ∷ s) =
    if-rule (SearchedTo p token before (c ∷ s)) (has_prefix (c ∷ s) token) _ _
      (λ _. (refl, omega arith))
      (λ off.
        go (index_from token (c ∷ before) s) (index_from-SearchedTo p token (c ∷ before) s)
          (no_bounded_here p token before (c ∷ s) off))
  where
    go :
        (o : Option (Bytes × Bytes))
        → SearchedTo p token (c ∷ before) s o
        → bounded_here p token before (c ∷ s) ≡ false
        → SearchedTo p token before (c ∷ s) o
    go none h off = ground arith
    go (some (front, found)) h off = (ground arith, omega (arith, h.1))
