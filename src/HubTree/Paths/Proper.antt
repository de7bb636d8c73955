-- ===== src/HubTree/Paths/Proper.antt =====
-- Which directories `cleanChildDir` of internal/hubtree/hubtree.go lets through.
use hfdesk.Base.{
  ◌≡◌, refl, sym, subst, ◌⊎◌, Bool, true, false, ◌||◌, Option, none, some, List, [], ◌∷◌, ◌++◌,
  if◌then◌else◌, Bytes, bytes_eq, bytes_eq_iff, codes, has_prefix, split, split_from, arith,
}
use hfdesk.HubTree.Paths.{push_elements, join_stack, clean, clean_child_dir}
use hfdesk.HubTree.Paths.Stack.{
  split_from-Slashless, push_elements-IsKept, join_stack_cases, AllNames, IsKept,
}

-- A path of names under `prefix`.
pub record IsUnder (prefix path : Bytes) : Type 0 where
  pub name : Bytes
  pub names : List Bytes
  pub all : AllNames (name ∷ names)
  pub spelled : path ≡ join_stack (name ∷ names)
  pub below : (prefix ≡ []) ⊎ (has_prefix path (prefix ++ codes "/") ≡ true)

-- What a relative path is judged by, after `path.Clean`.
verdict : Bytes → Bytes → Option Bytes
verdict prefix kept =
    let cleaned = if bytes_eq kept [] then codes "." else kept in
    if (bytes_eq cleaned (codes ".") || bytes_eq cleaned (codes ".."))
      || has_prefix cleaned (codes "../")
    then none
    else (if bytes_eq prefix []
        then some cleaned
        else (if has_prefix cleaned (prefix ++ codes "/") then some cleaned else none))

verdict_cases :
    (prefix kept child : Bytes)
    → verdict prefix kept ≡ some child
    → (kept ≡ child)
      × (bytes_eq kept [] ≡ false)
      × ((bytes_eq kept (codes "..") || has_prefix kept (codes "../")) ≡ false)
      × ((prefix ≡ []) ⊎ (has_prefix kept (prefix ++ codes "/") ≡ true))
unfolding verdict bytes_eq
verdict_cases prefix [] child e = absurd (ground arith)
verdict_cases prefix (c ∷ s) child e =
    let at_root = bytes_eq_iff prefix [] in (ground arith, refl, ground arith, ground arith)

verdict-IsUnder :
    (prefix child : Bytes) (stack : List Bytes)
    → IsKept stack
    → verdict prefix (join_stack stack) ≡ some child
    → IsUnder prefix child
unfolding verdict join_stack bytes_eq
verdict-IsUnder prefix child [] k e = absurd (ground arith)
verdict-IsUnder prefix child (name ∷ names) k e =
    let (same, filled, inside, below) = verdict_cases prefix (join_stack (name ∷ names)) child e in
    record {
      name = name;
      names = names;
      all = join_stack_cases (name ∷ names) k inside;
      spelled = sym same;
      below = subst (λ t. (prefix ≡ []) ⊎ (has_prefix t (prefix ++ codes "/") ≡ true)) same below;
    }

-- A directory that is listed is a chain of proper names strictly below the prefix: no part of it is
-- empty, `.` or `..`, whatever the server wrote.
pub clean_child_dir-IsUnder :
    (prefix dir child : Bytes) → clean_child_dir prefix dir ≡ some child → IsUnder prefix child
unfolding clean_child_dir clean verdict split split_from
clean_child_dir-IsUnder prefix dir child e = go (has_prefix dir (codes "/")) e
  where
    parts : List Bytes
    parts = split b'/' dir

    kept : Bool → Bytes
    kept rooted = join_stack (push_elements rooted [] parts)

    judge : Bytes → Option Bytes
    judge cleaned =
        if (bytes_eq cleaned (codes ".") || bytes_eq cleaned (codes ".."))
          || has_prefix cleaned (codes "../")
        then none
        else (if bytes_eq prefix []
            then some cleaned
            else (if has_prefix cleaned (prefix ++ codes "/") then some cleaned else none))

    go :
        (rooted : Bool)
        → (if bytes_eq dir [] || rooted
            then none
            else judge (
                if rooted
                then b'/' ∷ kept rooted
                else (if bytes_eq (kept rooted) [] then codes "." else kept rooted)))
          ≡ some child
        → IsUnder prefix child
    go true e = absurd (ground arith)
    go false e =
        verdict-IsUnder prefix child (push_elements false [] parts)
          (push_elements-IsKept parts [] (split_from-Slashless dir [] refl) tt) (ground arith)
