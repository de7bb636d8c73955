-- ===== src/HubTree/Links/Next.antt =====
-- The `next` link that internal/hubtree/hubtree.go finds in a header.
use native.Mathlib.Numerals.{add-one}
use hfdesk.Base.{
  ℕ, suc, ◌+◌, ◌≡◌, ◌≢◌, refl, ap, ◌∙◌, true, false, List, [], ◌∷◌, ◌++◌, arith, Bytes, codes,
  append_assoc, append-nil, trim, trim_space, trim-keeps, is_space, length, length-append, bytes_eq,
  bytes_eq_iff, some, trim_left, span, cut, fields,
}
use hfdesk.HubTree.Links.{
  follow, next_link, split_link_parts, scan, round, link_target_end, next_of_entry, first_next,
  link_has_rel_next, entry_of, before, behind, read_link_value, quoted,
}

-- A text with none of the three bytes that end a URI reference.
abbrev pub IsReference : Bytes → Type 0
IsReference [] = Unit {0}
IsReference (c ∷ s) = (c ≢ b'>') × (c ≢ b'<') × (c ≢ b'"') × IsReference s

-- What stands behind the target of a `next` link.
abbrev pub rel_suffix : Bytes
rel_suffix = codes ">; rel=\"next\""

pub link_target_end_closed :
    (target rest : Bytes)
    → IsReference target
    → link_target_end (target ++ b'>' ∷ rest) ≡ some (length target)
unfolding link_target_end
link_target_end_closed [] rest h = refl
link_target_end_closed (c ∷ s) rest (gt, lt, quote, h) =
    ground (arith, link_target_end_closed s rest h)

-- Bytes that are skipped stay in the part.
pub scan-skip :
    (sep : ℕ) (u s part key : Bytes)
    → scan sep (u ++ s) part key false (length u) ≡ scan sep s (part ++ u) (key ++ u) false 0
unfolding scan round
scan-skip sep [] s part key = rw (append-nil, append-nil)
scan-skip sep (c ∷ u) s part key =
    scan-skip sep u s (part ++ c ∷ []) (key ++ c ∷ []) ∙ rw (append_assoc, append_assoc)

abbrev rel_param : Bytes
rel_param = codes "; rel=\"next\""

scan_open :
    (target : Bytes)
    → IsReference target
    → scan b',' (b'<' ∷ (target ++ rel_suffix)) [] [] true 0
      ≡ scan b',' (target ++ rel_suffix) (b'<' ∷ []) (b'<' ∷ []) false (length target + 1)
unfolding scan round
scan_open target h = rw (link_target_end_closed target rel_param h, round)

rel_value : (read_link_value (codes "\"next\"") (trim_space (codes " rel"))).consumed ≡ 6
unfolding read_link_value trim trim_left span bytes_eq quoted
rel_value = refl

scan_param : (part key : Bytes) → scan b',' rel_param part key false 0 ≡ (part ++ rel_param) ∷ []
unfolding scan round
scan_param part key = rw rel_value (simp append_assoc)

split_header :
    (target : Bytes)
    → IsReference target
    → split_link_parts (b'<' ∷ (target ++ rel_suffix)) b',' ≡ (b'<' ∷ (target ++ rel_suffix)) ∷ []
unfolding split_link_parts
split_header target h =
    let u : Bytes = target ++ b'>' ∷ [] in
    let long : length u ≡ length target + 1 = omega (arith, length-append target (b'>' ∷ [])) in
    scan_open target h
    ∙ cc (
      append_assoc target (b'>' ∷ []) rel_param,
      long,
      scan-skip b',' u rel_param (b'<' ∷ []) (b'<' ∷ []),
      scan_param (b'<' ∷ u) (b'<' ∷ u),
    )

before-append : (u s : Bytes) → before (length u) (u ++ s) ≡ u
before-append [] s = refl
before-append (c ∷ u) s = ap (◌∷◌ c) (before-append u s)

behind-append : (u s : Bytes) (c : ℕ) → behind (suc (length u)) (u ++ c ∷ s) ≡ s
behind-append [] s c = refl
behind-append (d ∷ u) s c = behind-append u s c

entry_of_next :
    (target : Bytes)
    → IsReference target
    → entry_of (b'<' ∷ (target ++ rel_suffix))
      ≡ record { target = target; params = rel_param; valid_target = true }
unfolding entry_of
entry_of_next target h =
    rw (link_target_end_closed target rel_param h, entry_of)
      (rw (before-append target rel_suffix, add-one, behind-append target rel_param b'>'))

rel_param_next : link_has_rel_next rel_param ≡ (true, true)
unfolding link_has_rel_next split_link_parts read_link_value trim trim_left span bytes_eq quoted cut
    fields
rel_param_next = refl

next_of_entry_lem :
    (target : Bytes)
    → IsReference target
    → trim_space target ≢ []
    → next_of_entry (b'<' ∷ (target ++ rel_suffix)) ≡ some (follow target)
unfolding next_of_entry
next_of_entry_lem target h filled =
    let real : bytes_eq (trim_space target) [] ≡ false =
      ground (arith, bytes_eq_iff (trim_space target) []) in
    rw (entry_of_next target h, rel_param_next, real)

trimmed :
    (target : Bytes) → trim_space (b'<' ∷ (target ++ rel_suffix)) ≡ b'<' ∷ (target ++ rel_suffix)
trimmed target =
    rw (← append_assoc target (codes ">; rel=\"next") (b'"' ∷ []))
      (trim-keeps is_space b'<' b'"' (target ++ codes ">; rel=\"next") refl refl)

-- A header `<target>; rel="next"` gives this target, whatever headers follow, if the target is not
-- blank and holds no angle bracket and no double quote.
pub next_link_follows :
    (target : Bytes) (headers : List Bytes)
    → IsReference target
    → trim_space target ≢ []
    → next_link ((b'<' ∷ (target ++ rel_suffix)) ∷ headers) ≡ follow target
unfolding next_link
next_link_follows target headers h filled =
    rw (split_header target h, next_link)
      (rw (trimmed target, first_next) (rw (next_of_entry_lem target h filled)))
