-- ===== src/HubTree/Covered.antt =====
-- `coveredSubtrees` and the node type of internal/hubtree/hubtree.go. The map of covered directories
-- is the list of its keys.
pub mod Index
use hfdesk.Base.{
  ℕ, zero, suc, Bool, true, false, Option, none, some, List, [], ◌∷◌, ◌==◌, if◌then◌else◌, any,
  length, Bytes, bytes_eq,
}

pub record Lfs : Type 0 where
  pub oid : Bytes
  pub size : ℕ
  pub sha256 : Bytes

pub record Node : Type 0 where
  pub kind : Bytes
  pub path : Bytes
  pub size : ℕ
  pub lfs : Option Lfs
  pub sha256 : Bytes

-- `s[:strings.LastIndexByte(s, '/')]`, where there is a slash.
unfoldable pub before_last_slash : Bytes → Option Bytes
before_last_slash [] = none
before_last_slash (c ∷ s) = elim (before_last_slash s) [
  | some a ↦ some (c ∷ a)
  | none ↦ if c == b'/' then some [] else none
]

abbrev pub has : List Bytes → Bytes → Bool
has keys d = any (bytes_eq d) keys

-- The loop over the ancestors of one path. Each ancestor is shorter, so the length is enough fuel.
unfoldable pub climb : ℕ → Bytes → List Bytes → List Bytes
climb zero text covered = covered
climb (suc fuel) text covered = elim (before_last_slash text) [
  | none ↦ covered
  | some ancestor ↦ elim (has covered ancestor) [
    | true ↦ covered
    | false ↦ climb fuel ancestor (ancestor ∷ covered)
  ]
]

cover_nodes : List Bytes → List Node → List Bytes
cover_nodes covered [] = covered
cover_nodes covered (n ∷ ns) = cover_nodes (climb (length n.path) n.path covered) ns

unfoldable pub covered_subtrees : List Node → List Bytes
unfolding cover_nodes
covered_subtrees nodes = cover_nodes [] nodes
