-- ===== src/Downloader/Filters/Exact.antt =====
-- The exact mode of `filterMatches` in pkg/hfdownloader/plan.go against a search for a delimited
-- occurrence at every position of the name.
use hfdesk.Base.{
  ℕ, zero, suc, ◌≤◌, ◌<◌, ◌≡◌, refl, sym, Bool, true, false, ◌&&◌, ◌||◌, Option, none, some, [],
  ◌∷◌, arith, ◌==◌, if◌then◌else◌, any, length, Bytes, bytes_eq, codes, cut_prefix, has_prefix,
  contains, fields_by, starts_free, index_from, bounded_here, bounded_somewhere, SearchedTo,
  index_from-SearchedTo, any-fields_by, any-fields_by_none,
}
use hfdesk.Downloader.Filters.{is_filter_delimiter, bounded_from, filter_matches}

contains_byte : (s : Bytes) (d : ℕ) → contains s (d ∷ []) ≡ any (λ c. c == d) s
unfolding contains has_prefix
contains_byte [] d = refl
contains_byte (c ∷ s) d = let rec = contains_byte s d in ground arith

any-delimiter :
    (s : Bytes)
    → (any (λ c. c == b'-') s || (any (λ c. c == b'.') s || any (λ c. c == b' ') s))
      ≡ any is_filter_delimiter s
any-delimiter [] = refl
any-delimiter (c ∷ s) = let rec = any-delimiter s in ground arith

not_at_end : (d : ℕ) (t before : Bytes) → bounded_here is_filter_delimiter (d ∷ t) before [] ≡ false
unfolding bounded_here cut_prefix
not_at_end d t before = ground arith

-- With fuel for every byte, the loop from occurrence to occurrence finds what a search at every
-- position finds.
bounded_from_eq :
    (fuel d : ℕ) (t before s : Bytes)
    → length s < fuel
    → bounded_from fuel (d ∷ t) before s ≡ bounded_somewhere is_filter_delimiter (d ∷ t) before s
unfolding bounded_from SearchedTo bounded_somewhere bounded_here
bounded_from_eq zero d t before s enough = absurd (omega arith)
bounded_from_eq (suc fuel) d t before s enough =
    go (index_from (d ∷ t) before s) (index_from-SearchedTo is_filter_delimiter (d ∷ t) before s)
      (λ front c r le. bounded_from_eq fuel d t (c ∷ front) r (omega arith))
  where
    go :
        (o : Option (Bytes × Bytes))
        → SearchedTo is_filter_delimiter (d ∷ t) before s o
        → ((front : Bytes) (c : ℕ) (r : Bytes)
            → length (c ∷ r) ≤ length s
            → bounded_from fuel (d ∷ t) (c ∷ front) r
              ≡ bounded_somewhere is_filter_delimiter (d ∷ t) (c ∷ front) r)
        → elim o [
          | none ↦ false
          | some (front, found) ↦
              if starts_free is_filter_delimiter front && elim (cut_prefix found (d ∷ t)) [
                | none ↦ false
                | some behind ↦ starts_free is_filter_delimiter behind
              ]
              then true
              else elim found [ [] ↦ false | c ∷ rest ↦ bounded_from fuel (d ∷ t) (c ∷ front) rest ]
        ]
          ≡ bounded_somewhere is_filter_delimiter (d ∷ t) before s
    go none h again = sym h
    go (some (front, [])) h again = let same = h.0 in ground arith
    go (some (front, c ∷ r)) h again =
        let rec = again front c r h.1 in let same = h.0 in ground arith

by_kind :
    (b found more somewhere : Bool)
    → (b ≡ false → found ≡ somewhere)
    → (b ≡ true → found ≡ false)
    → more ≡ somewhere
    → (if found then true else (if b then more else false)) ≡ somewhere
by_kind true found more somewhere plain mixed again = let off = mixed refl in ground arith
by_kind false found more somewhere plain mixed again = let same = plain refl in ground arith

-- In exact mode a filter that is not empty matches a name exactly where it stands somewhere in it with
-- a delimiter or an end of the name on both sides, whether or not it has delimiters itself.
pub filter_matches-exact :
    (name : Bytes) (d : ℕ) (t : Bytes)
    → filter_matches name (d ∷ t) true ≡ bounded_somewhere is_filter_delimiter (d ∷ t) [] name
unfolding filter_matches
filter_matches-exact name d t =
    let f : Bytes = d ∷ t in
    let has = any-delimiter f in
    let dash = contains_byte f b'-' in
    let dot = contains_byte f b'.' in
    let space = contains_byte f b' ' in
    by_kind (contains f (codes "-") || (contains f (codes ".") || contains f (codes " ")))
      (any (bytes_eq f) (fields_by is_filter_delimiter name))
      (bounded_from (suc (length name)) f [] name) (bounded_somewhere is_filter_delimiter f [] name)
      (λ e. any-fields_by is_filter_delimiter d t name (ground arith))
      (λ e. any-fields_by_none is_filter_delimiter f name (ground arith))
      (bounded_from_eq (suc (length name)) d t [] name (omega arith))
