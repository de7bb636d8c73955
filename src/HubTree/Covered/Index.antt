-- ===== src/HubTree/Covered/Index.antt =====
-- The index of covered directories of internal/hubtree/hubtree.go holds exactly the raw prefixes.
use hfdesk.Base.{
  ℕ, zero, suc, ◌≤◌, ◌<◌, ◌≡◌, refl, sym, ap, ◌∙◌, inl, inr, Bool, true, false, ◌||◌, none, some,
  List, [], ◌∷◌, ◌++◌, arith, Bytes, Bool-cases, Option-cases, any, length, bytes_eq, bytes_eq_iff,
  has_prefix,
}
use hfdesk.HubTree.Covered.{Node, before_last_slash, has, climb, cover_nodes, covered_subtrees}

-- `strings.HasPrefix(t, d+"/")`.
abbrev pub is_under : Bytes → Bytes → Bool
is_under d t = has_prefix t (d ++ b'/' ∷ [])

is_under-none : (t d : Bytes) → before_last_slash t ≡ none → is_under d t ≡ false
unfolding before_last_slash has_prefix
is_under-none [] [] e = refl
is_under-none [] (x ∷ d) e = refl
is_under-none (c ∷ s) [] e = ground arith
is_under-none (c ∷ s) (x ∷ d) e = ground (arith, is_under-none s d)

-- The directories above a text are the one before its last slash and those above that one.
is_under-some :
    (t d a : Bytes) → before_last_slash t ≡ some a → is_under d t ≡ (bytes_eq d a || is_under d a)
unfolding before_last_slash has_prefix bytes_eq
is_under-some [] d a e = cc
is_under-some (c ∷ s) [] [] e = ground (arith, is_under-none s [])
is_under-some (c ∷ s) [] (b ∷ a) e = ground arith
is_under-some (c ∷ s) (x ∷ d) [] e = ground (arith, is_under-none s d)
is_under-some (c ∷ s) (x ∷ d) (b ∷ a) e = ground (arith, is_under-some s d a)

before_last_slash_shorter : (t a : Bytes) → before_last_slash t ≡ some a → length a < length t
unfolding before_last_slash
before_last_slash_shorter [] a e = cc
before_last_slash_shorter (c ∷ s) [] e = omega arith
before_last_slash_shorter (c ∷ s) (b ∷ a) e = ground (arith, before_last_slash_shorter s a)

is_under_trans : (t a d : Bytes) → is_under a t ≡ true → is_under d a ≡ true → is_under d t ≡ true
unfolding has_prefix
is_under_trans t [] [] h k = cc
is_under_trans t [] (x ∷ d) h k = cc
is_under_trans [] (b ∷ a) d h k = cc
is_under_trans (c ∷ t) (b ∷ a) [] h k = ground arith
is_under_trans (c ∷ t) (b ∷ a) (x ∷ d) h k = ground (arith, is_under_trans t a d)

-- Every directory above a key is a key.
abbrev IsClosed : List Bytes → Type 0
IsClosed keys = (a d : Bytes) → has keys a ≡ true → is_under d a ≡ true → has keys d ≡ true

abbrev Longer : ℕ → List Bytes → Type 0
Longer n [] = Unit {0}
Longer n (x ∷ xs) = (n ≤ length x) × Longer n xs

Longer-mono : (m n : ℕ) (xs : List Bytes) → m ≤ n → Longer n xs → Longer m xs
Longer-mono m n [] h l = tt
Longer-mono m n (x ∷ xs) h (long, l) = (omega arith, Longer-mono m n xs h l)

-- A text shorter than all of `xs` is not among them.
has-Longer :
    (a : Bytes) (xs keys : List Bytes)
    → Longer (suc (length a)) xs
    → has (xs ++ keys) a ≡ has keys a
has-Longer a [] keys l = refl
has-Longer a (x ∷ xs) keys (long, l) =
    let other : bytes_eq a x ≡ false = elim (Bool-cases (bytes_eq a x)) [
      | inl same ↦ absurd (omega (arith, ap length ((bytes_eq_iff a x).0 same)))
      | inr e ↦ e
    ] in
    ground (arith, other, has-Longer a xs keys l)

has-append_right :
    (d : Bytes) (xs keys : List Bytes) → has keys d ≡ true → has (xs ++ keys) d ≡ true
has-append_right d [] keys h = h
has-append_right d (x ∷ xs) keys h = ground (arith, has-append_right d xs keys h)

module _ (fuel : ℕ) (t d a : Bytes) (keys : List Bytes) where
  climb_end :
      before_last_slash t ≡ none → has (climb (suc fuel) t keys) d ≡ (has keys d || is_under d t)
  unfolding climb
  climb_end e = rw (e, climb, is_under-none t d e) (ground arith)

  climb_old : before_last_slash t ≡ some a → has keys a ≡ true → climb (suc fuel) t keys ≡ keys
  unfolding climb
  climb_old e h = ground (arith, e, h)

  climb_new :
      before_last_slash t ≡ some a
      → has keys a ≡ false
      → climb (suc fuel) t keys ≡ climb fuel a (a ∷ keys)
  unfolding climb
  climb_new e h = ground (arith, e, h)

or_absorbs : (b c : Bool) → (c ≡ true → b ≡ true) → b ≡ (b || c)
or_absorbs true c h = refl
or_absorbs false true h = h refl
or_absorbs false false h = refl

-- Climbing from a text adds the directories above it, and no others.
climb-has :
    (fuel : ℕ) (t d : Bytes) (xs keys : List Bytes)
    → length t ≤ fuel
    → IsClosed keys
    → Longer (length t) xs
    → has (climb fuel t (xs ++ keys)) d ≡ (has (xs ++ keys) d || is_under d t)
climb-has zero [] d xs keys h closed l =
    unfold climb before_last_slash in
    or_absorbs (has (xs ++ keys) d) (is_under d []) (λ e. cc (is_under-none [] d refl))
climb-has zero (c ∷ t) d xs keys h closed l = absurd (omega arith)
climb-has (suc fuel) t d xs keys h closed l = elim (Option-cases (before_last_slash t)) [
  | inl e ↦ climb_end fuel t d [] (xs ++ keys) e
  | inr (a, e) ↦
      let short : length a < length t = before_last_slash_shorter t a e in
      let apart = has-Longer a xs keys (Longer-mono (suc (length a)) (length t) xs short l) in
      elim (Bool-cases (has (xs ++ keys) a)) [
        | inl old ↦
            ap (λ k. has k d) (climb_old fuel t d a (xs ++ keys) e old)
            ∙ or_absorbs (has (xs ++ keys) d) (is_under d t) (λ u.
              elim (Bool-cases (bytes_eq d a)) [
                | inl same ↦ rw ((bytes_eq_iff d a).0 same) old
                | inr other ↦
                    has-append_right d xs keys
                      (closed a d (sym apart ∙ old) (ground (arith, is_under-some t d a e, other)))
              ])
        | inr new ↦
            ap (λ k. has k d) (climb_new fuel t d a (xs ++ keys) e new)
            ∙ climb-has fuel a d (a ∷ xs) keys (omega arith) closed
                (omega arith, Longer-mono (length a) (length t) xs (omega arith) l)
            ∙ ground (arith, is_under-some t d a e)
      ]
]

abbrev listed : List Node → Bytes → Bool
listed nodes d = any (λ n. is_under d n.path) nodes

climb-IsClosed :
    (t : Bytes) (keys : List Bytes) → IsClosed keys → IsClosed (climb (length t) t keys)
climb-IsClosed t keys closed a d h u =
    let at_a = climb-has (length t) t a [] keys (omega arith) closed tt in
    let at_d = climb-has (length t) t d [] keys (omega arith) closed tt in
    elim (Bool-cases (has keys a)) [
      | inl old ↦ rw at_d (rw (closed a d old u))
      | inr new ↦ rw at_d (ground (arith, is_under_trans t a d (ground (arith, at_a, new)) u))
    ]

cover_nodes-has :
    (nodes : List Node) (keys : List Bytes) (d : Bytes)
    → IsClosed keys
    → has (cover_nodes keys nodes) d ≡ (has keys d || listed nodes d)
unfolding cover_nodes
cover_nodes-has [] keys d closed = ground arith
cover_nodes-has (n ∷ ns) keys d closed =
    let t = n.path in
    cover_nodes-has ns (climb (length t) t keys) d (climb-IsClosed t keys closed)
    ∙ ground (arith, climb-has (length t) t d [] keys (omega arith) closed tt)

-- The index holds a directory exactly where some listed path starts with it and a slash, although
-- the loop stops at the first ancestor that is already there.
pub covered_subtrees-has :
    (nodes : List Node) (d : Bytes)
    → has (covered_subtrees nodes) d ≡ any (λ n. has_prefix n.path (d ++ b'/' ∷ [])) nodes
unfolding covered_subtrees
covered_subtrees-has nodes d = cover_nodes-has nodes [] d (λ a e h u. cc)
