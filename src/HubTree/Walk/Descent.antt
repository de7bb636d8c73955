-- ===== src/HubTree/Walk/Descent.antt =====
-- `walk` and `Walk` of internal/hubtree/hubtree.go.
use hfdesk.Base.{
  ℕ, zero, suc, Bool, ◌||◌, Option, none, some, List, [], ◌∷◌, if◌then◌else◌, Bytes, bytes_eq,
  codes,
}
use hfdesk.HubTree.Covered.{Node, covered_subtrees, has}
use hfdesk.HubTree.Paths.{clean_child_dir}
use hfdesk.HubTree.Walk.{
  UrlLibrary, World, WalkState, out_of_fuel, callback, Result, failed, returned, and_then, start,
}
use hfdesk.HubTree.Walk.Pages.{list_all_pages}

-- The walk of a directory is on record from here on.
abbrev pub begin : WalkState → Bytes → WalkState
begin st prefix = record st { entered = prefix ∷ st.entered }

module _ (lib : UrlLibrary) (w : World) where
  abbrev pub is_directory : Node → Bool
  is_directory n = bytes_eq n.kind (codes "directory") || bytes_eq n.kind (codes "tree")

  -- The loop over one listing, with the walk of a child as an argument.
  unfoldable pub enter_child :
      (WalkState → Bytes → Result (Unit {0}))
      → List Bytes
      → WalkState
      → Option Bytes
      → (WalkState → Result (Unit {0}))
      → Result (Unit {0})
  unfolding and_then
  enter_child descend covered st none next = next st
  enter_child descend covered st (some child) next =
      if has covered child || has st.visited child
      then next st
      else and_then (descend (record st { visited = child ∷ st.visited }) child) (λ _ st'. next st')

  unfoldable pub pass_file :
      WalkState → Node → Option ℕ → (WalkState → Result (Unit {0})) → Result (Unit {0})
  pass_file st n none next = next (record st { files = n ∷ st.files })
  pass_file st n (some e) next = failed (callback e) (record st { files = n ∷ st.files })

  unfoldable pub visit_nodes :
      (WalkState → Bytes → Result (Unit {0}))
      → Bytes
      → List Bytes
      → List Node
      → WalkState
      → Result (Unit {0})
  unfolding enter_child pass_file
  visit_nodes descend prefix covered [] st = returned tt st
  visit_nodes descend prefix covered (n ∷ ns) st =
      let next = visit_nodes descend prefix covered ns in
      if is_directory n
      then enter_child descend covered st (clean_child_dir prefix n.path) next
      else pass_file st n (w.visit_file st.files n) next

  unfoldable pub walk : ℕ → WalkState → Bytes → Result (Unit {0})
  unfolding list_all_pages visit_nodes and_then
  walk zero st prefix = failed out_of_fuel (begin st prefix)
  walk (suc fuel) st prefix =
      and_then (list_all_pages lib w (begin st prefix) prefix)
        (λ nodes st'. visit_nodes (walk fuel) prefix (covered_subtrees nodes) nodes st')

  -- `Walk` with a `TreeURL` that is set.
  unfoldable pub walk_tree : ℕ → Bytes → Result (Unit {0})
  unfolding walk
  walk_tree max_requests prefix = walk (suc max_requests) (start max_requests) prefix
