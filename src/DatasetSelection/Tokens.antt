-- ===== src/DatasetSelection/Tokens.antt =====
-- The search of `hasSplitToken` in internal/datasetselection/membership.go against a search at every
-- position.
use hfdesk.Base.{
  ℕ, zero, suc, ◌≤◌, ◌<◌, ◌≡◌, sym, true, false, ◌&&◌, Option, none, some, [], ◌∷◌, arith,
  if◌then◌else◌, length, Bytes, cut_prefix, starts_free, index_from, bounded_here,
  bounded_somewhere, SearchedTo, index_from-SearchedTo,
}
use hfdesk.DatasetSelection.Names.{is_split_delimiter, split_token_from, has_split_token}

not_at_end : (d : ℕ) (t before : Bytes) → bounded_here is_split_delimiter (d ∷ t) before [] ≡ false
unfolding bounded_here cut_prefix
not_at_end d t before = ground arith

-- With fuel for every byte, the search that jumps from occurrence to occurrence finds what a search
-- at every position finds.
split_token_from_eq :
    (fuel d : ℕ) (t before s : Bytes)
    → length s < fuel
    → split_token_from fuel (d ∷ t) before s ≡ bounded_somewhere is_split_delimiter (d ∷ t) before s
unfolding split_token_from SearchedTo bounded_somewhere bounded_here
split_token_from_eq zero d t before s enough = absurd (omega arith)
split_token_from_eq (suc fuel) d t before s enough =
    go (index_from (d ∷ t) before s) (index_from-SearchedTo is_split_delimiter (d ∷ t) before s)
      (λ front c r le. split_token_from_eq fuel d t (c ∷ front) r (omega arith))
  where
    go :
        (o : Option (Bytes × Bytes))
        → SearchedTo is_split_delimiter (d ∷ t) before s o
        → ((front : Bytes) (c : ℕ) (r : Bytes)
            → length (c ∷ r) ≤ length s
            → split_token_from fuel (d ∷ t) (c ∷ front) r
              ≡ bounded_somewhere is_split_delimiter (d ∷ t) (c ∷ front) r)
        → elim o [
          | none ↦ false
          | some (front, found) ↦
              if starts_free is_split_delimiter front && elim (cut_prefix found (d ∷ t)) [
                | none ↦ false
                | some behind ↦ starts_free is_split_delimiter behind
              ]
              then true
              else elim found [
                | [] ↦ false
                | c ∷ rest ↦ elim rest [
                  | [] ↦ false
                  | e ∷ u ↦ split_token_from fuel (d ∷ t) (c ∷ front) (e ∷ u)
                ]
              ]
        ]
          ≡ bounded_somewhere is_split_delimiter (d ∷ t) before s
    go none h again = sym h
    go (some (front, [])) h again = let same = h.0 in ground arith
    go (some (front, c ∷ [])) h again =
        let same = h.0 in let last = not_at_end d t (c ∷ front) in ground arith
    go (some (front, c ∷ e ∷ u)) h again =
        let rec = again front c (e ∷ u) h.1 in let same = h.0 in ground arith

-- A base name has a split token exactly where the token stands somewhere in it with a delimiter or
-- an end of the name on both sides, overlapping occurrences included.
pub has_split_token_eq :
    (base : Bytes) (d : ℕ) (t : Bytes)
    → has_split_token base (d ∷ t) ≡ bounded_somewhere is_split_delimiter (d ∷ t) [] base
unfolding has_split_token
has_split_token_eq base d t = split_token_from_eq (suc (length base)) d t [] base (omega arith)
