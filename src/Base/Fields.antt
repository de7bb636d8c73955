-- ===== src/Base/Fields.antt =====
-- The fields of a text between delimiters against the delimited tokens in it.
use Prim.Native.Nat.{ℕ}
use mathlib.Core.Path.{◌≡◌, refl, sym, ap, ◌∙◌}
use mathlib.Core.Bool.{Bool, true, false, ◌||◌}
use mathlib.Core.Option.{none, some}
use mathlib.Core.Logic.{inl, inr}
use mathlib.Core.List.{List, [], ◌∷◌, ◌++◌, append-nil, append_assoc}
use native.Mathlib.Omega.{arith}
use hfdesk.Base.Tests.{Bool-cases, ◌==◌, ==_self}
use hfdesk.Base.Lists.{any}
use hfdesk.Base.Text.{
  Bytes, bytes_eq, bytes_eq_iff, split_from, cut_prefix, add_word, fields_from, fields_by,
}
use hfdesk.Base.Search.{starts_free, bounded_here, bounded_somewhere}

module _ (p : ℕ → Bool) where
  -- The text up to the next delimiter.
  run : Bytes → Bytes
  run [] = []
  run (c ∷ s) = let rest = run s in elim (p c) [ true ↦ [] | false ↦ c ∷ rest ]

  abbrev pub IsPlain : Bytes → Type 0
  IsPlain f = any p f ≡ false

  free_behind : Bytes → Bytes → Bool
  free_behind s f = elim (cut_prefix s f) [ none ↦ false | some b ↦ starts_free p b ]

  -- A plain token before a delimiter or the end is exactly the run there.
  free_behind-run : (s f : Bytes) → IsPlain f → free_behind s f ≡ bytes_eq f (run s)
  unfolding free_behind run cut_prefix bytes_eq
  free_behind-run [] [] h = refl
  free_behind-run (c ∷ s) [] h = ground arith
  free_behind-run [] (d ∷ t) h = refl
  free_behind-run (c ∷ s) (d ∷ t) h =
      let rec = free_behind-run s t (ground (arith, h)) in ground (arith, h)

  module _ (d : ℕ) (t : Bytes) (plain : IsPlain (d ∷ t)) where
    -- At a boundary the fields are the delimited tokens; in a word the first field is the finished word.
    abbrev AtBoundary : Bytes → Bytes → Type 0
    AtBoundary before s =
        starts_free p before ≡ true
        → any (bytes_eq (d ∷ t)) (fields_from p [] s) ≡ bounded_somewhere p (d ∷ t) before s

    abbrev InWord : Bytes → Bytes → Type 0
    InWord before s =
        (c : ℕ) (word : Bytes)
        → starts_free p before ≡ false
        → any (bytes_eq (d ∷ t)) (fields_from p (c ∷ word) s)
          ≡ (bytes_eq (d ∷ t) ((c ∷ word) ++ run s) || bounded_somewhere p (d ∷ t) before s)

    here_free :
        (before s : Bytes)
        → starts_free p before ≡ true
        → bounded_here p (d ∷ t) before s ≡ bytes_eq (d ∷ t) (run s)
    unfolding bounded_here free_behind
    here_free before s free = let found = free_behind-run s (d ∷ t) plain in ground arith

    here_inside :
        (before s : Bytes) → starts_free p before ≡ false → bounded_here p (d ∷ t) before s ≡ false
    unfolding bounded_here
    here_inside before s inside = ground arith

    fields_cases : (before s : Bytes) → AtBoundary before s × InWord before s
    unfolding fields_from add_word bounded_somewhere run bytes_eq
    fields_cases before [] = (
      λ free. let here = here_free before [] free in ground arith,
      λ c word inside.
          let here = here_inside before [] inside in
          let end = append-nil (c ∷ word) in ground arith,
    )
    fields_cases before (c ∷ s) =
        let (fresh, further) = fields_cases (c ∷ before) s in go (p c) refl fresh further
      where
        go :
            (b : Bool)
            → p c ≡ b
            → AtBoundary (c ∷ before) s
            → InWord (c ∷ before) s
            → AtBoundary before (c ∷ s) × InWord before (c ∷ s)
        go true e fresh further = (
          λ free. let here = here_free before (c ∷ s) free in let rec = fresh e in ground arith,
          λ first word inside.
              let here = here_inside before (c ∷ s) inside in
              let rec = fresh e in let end = append-nil (first ∷ word) in ground arith,
        )
        go false e fresh further = (
          λ free.
              let here = here_free before (c ∷ s) free in let rec = further c [] e in ground arith,
          λ first word inside.
              let here = here_inside before (c ∷ s) inside in
              let rec = further first (word ++ c ∷ []) e in
              let joined = append_assoc (first ∷ word) (c ∷ []) (run s) in ground arith,
        )

  -- A plain token is one of the fields of a text exactly if it stands in it between delimiters.
  pub any-fields_by :
      (d : ℕ) (t s : Bytes)
      → IsPlain (d ∷ t)
      → any (bytes_eq (d ∷ t)) (fields_by p s) ≡ bounded_somewhere p (d ∷ t) [] s
  unfolding fields_by
  any-fields_by d t s plain = (fields_cases d t plain [] s).0 refl

  any-snoc_delimiter :
      (word : Bytes) (c : ℕ) → any p word ≡ false → p c ≡ false → any p (word ++ c ∷ []) ≡ false
  any-snoc_delimiter [] c h e = ground (arith, e)
  any-snoc_delimiter (d ∷ word) c h e = let rec = any-snoc_delimiter word c in ground (arith, h, e)

  add_word_none :
      (f word : Bytes) (words : List Bytes)
      → any p f ≡ true
      → any p word ≡ false
      → any (bytes_eq f) words ≡ false
      → any (bytes_eq f) (add_word word words) ≡ false
  unfolding add_word
  add_word_none f [] words h w rest = rest
  add_word_none f (c ∷ word) words h w rest =
      let same : bytes_eq f (c ∷ word) ≡ true → f ≡ c ∷ word = (bytes_eq_iff f (c ∷ word)).0 in
      elim (Bool-cases (bytes_eq f (c ∷ word))) [
        | inl e ↦ absurd (not_both (sym h ∙ (ap (any p) (same e) ∙ w)))
        | inr e ↦ ground (arith, e, rest)
      ]
    where
      not_both : ¬ (true ≡ false)
      not_both e = cc e

  fields_from_none :
      (f word s : Bytes)
      → any p f ≡ true
      → any p word ≡ false
      → any (bytes_eq f) (fields_from p word s) ≡ false
  unfolding fields_from
  fields_from_none f word [] h w = add_word_none f word [] h w refl
  fields_from_none f word (c ∷ s) h w =
      go (p c) refl (fields_from_none f [] s h refl) (fields_from_none f (word ++ c ∷ []) s h)
    where
      go :
          (b : Bool)
          → p c ≡ b
          → any (bytes_eq f) (fields_from p [] s) ≡ false
          → (any p (word ++ c ∷ []) ≡ false
              → any (bytes_eq f) (fields_from p (word ++ c ∷ []) s) ≡ false)
          → any (bytes_eq f) (elim b [
            | true ↦ add_word word (fields_from p [] s)
            | false ↦ fields_from p (word ++ c ∷ []) s
          ])
            ≡ false
      go true e here rest = add_word_none f word (fields_from p [] s) h w here
      go false e here rest = rest (any-snoc_delimiter word c w e)

  -- A text with a delimiter is no field.
  pub any-fields_by_none : (f s : Bytes) → any p f ≡ true → any (bytes_eq f) (fields_by p s) ≡ false
  unfolding fields_by
  any-fields_by_none f s h = fields_from_none f [] s h refl

-- A text without a separator goes into the current part of a split.
pub split_from-part :
    (sep : ℕ) (part e s : Bytes)
    → any (λ c. c == sep) e ≡ false
    → split_from sep part (e ++ s) ≡ split_from sep (part ++ e) s
unfolding split_from
split_from-part sep part [] s h = ap (λ p. split_from sep p s) (sym (append-nil part))
split_from-part sep part (c ∷ e) s h =
    let rec = split_from-part sep (part ++ c ∷ []) e s (ground (arith, h)) in
    let moved = append_assoc part (c ∷ []) e in ground (arith, h, rec, moved)

-- A text without a separator, in front of one, is a part.
pub split_from-more :
    (sep : ℕ) (e s : Bytes)
    → any (λ c. c == sep) e ≡ false
    → split_from sep [] (e ++ sep ∷ s) ≡ e ∷ split_from sep [] s
unfolding split_from
split_from-more sep e s h =
    split_from-part sep [] e (sep ∷ s) h ∙ (let self = ==_self sep in ground (arith, self))
