-- ===== src/HubTree/Walk/Budget.antt =====
-- The request budget of a walk in internal/hubtree/hubtree.go.
use hfdesk.Base.{
  ℕ, zero, suc, ◌+◌, ◌≤◌, ◌<◌, ◌≡◌, refl, Bool, true, false, Option, none, some, List, [], ◌∷◌,
  ◌++◌, arith, length, Bytes, if-rule, ◌==◌,
}
use hfdesk.HubTree.Covered.{Node, covered_subtrees}
use hfdesk.HubTree.Paths.{clean_child_dir}
use hfdesk.HubTree.Walk.{
  UrlLibrary, World, see, WalkState, Result, failed, returned, AfterPage, Reply, stops, complete,
  continues, start,
}
use hfdesk.HubTree.Walk.Descent.{
  enter_child, pass_file, visit_nodes, walk, walk_tree, is_directory, begin,
}
use hfdesk.HubTree.Walk.Pages.{
  built_url, accept_page, decoded_page, turn_to, page_url, after_page, pages, list_all_pages,
}
use hfdesk.HubTree.Walk.Payments.{
  Pays-weaken, Pays-trans, Pays-and_then, funds, is_stuck, Pays, fetch-Pays,
}

module _ (lib : UrlLibrary) (w : World) where
  built_url-Pays :
      (st : WalkState) (raw : Bytes) (recursive : Bool) (u : Option lib.Url)
      → Pays 0 st (built_url lib w st raw recursive u)
  unfolding built_url Pays
  built_url-Pays st raw recursive none = (refl, refl)
  built_url-Pays st raw recursive (some u) = (refl, omega arith)

  page_url-Pays :
      (st : WalkState) (prefix : Bytes) (recursive : Bool)
      → Pays 0 st (page_url lib w st prefix recursive)
  unfolding page_url
  page_url-Pays st prefix recursive = built_url-Pays st _ recursive (lib.parse (w.tree_url prefix))

  -- The rest of a listing, from a state with the same budget.
  IsRest : WalkState → (WalkState → Bytes → List Node → Result (List Node)) → Type 0
  IsRest st next =
      (st' : WalkState) (target : Bytes) (nodes : List Node)
      → funds st' ≡ funds st
      → st'.budget ≤ st.budget
      → Pays 0 st (next st' target nodes)

  accept_page-Pays :
      (st : WalkState) (u : Bytes) (nodes : List Node) (reply : Reply)
      (next : WalkState → Bytes → List Node → Result (List Node))
      → IsRest st next
      → Pays 0 st (accept_page lib w st u nodes reply next)
  unfolding accept_page decoded_page turn_to IsRest Pays
  accept_page-Pays st u nodes reply next rest =
      if-rule (Pays 0 st) (reply.head.status_code == 200) _ _ (λ _. decoded reply.page)
        (λ _. (refl, refl))
    where
      turned : (all : List Node) (a : AfterPage) → Pays 0 st (turn_to lib w st all a next)
      turned all (stops e) = (refl, refl)
      turned all complete = (refl, omega arith)
      turned all (continues target) = rest _ target all refl (omega arith)

      decoded :
          (page : Option (List Node))
          → Pays 0 st (decoded_page lib w st u nodes reply.links page next)
      decoded none = (refl, refl)
      decoded (some page) = turned (nodes ++ page) (after_page lib w st u reply.links)

  -- With more fuel than requests left, a listing comes to an end.
  pages-Pays :
      (fuel : ℕ) (st : WalkState) (prefix u : Bytes) (use_recursive from_link : Bool)
      (nodes : List Node)
      → st.budget < fuel
      → Pays 1 st (pages lib w fuel st prefix u use_recursive from_link nodes)
  unfolding pages IsRest
  pages-Pays zero st prefix u use_recursive from_link nodes enough = absurd (omega arith)
  pages-Pays (suc fuel) st prefix u use_recursive from_link nodes enough =
      Pays-and_then 1 0 st _ _ (fetch-Pays lib w st u) (λ reply st' same less.
        if-rule (Pays 0 st') _ _ _
          (λ _.
            Pays-trans 0 0 st' (record st' { recursive_ok = false }) _ refl (omega arith)
              (Pays-and_then 0 0 (record st' { recursive_ok = false }) _ _
                (page_url-Pays (record st' { recursive_ok = false }) prefix false)
                (λ plain st'' same' less'.
                  Pays-trans 0 0 st'' (see st'' plain) _ refl (omega arith) (
                    Pays-weaken 0 (see st'' plain) _ (
                      pages-Pays fuel (see st'' plain) prefix plain false false nodes
                        (omega arith))))))
          (λ _. accept_page-Pays st' u nodes reply _ (λ st'' target nodes' same' less'.
            Pays-trans 0 0 st' st'' _ same' (omega arith) (
              Pays-weaken 0 st'' _
                (pages-Pays fuel st'' prefix target use_recursive true nodes' (omega arith))))))

  list_all_pages-Pays :
      (st : WalkState) (prefix : Bytes) → Pays 1 st (list_all_pages lib w st prefix)
  unfolding list_all_pages
  list_all_pages-Pays st prefix =
      Pays-and_then 0 1 st _ _ (page_url-Pays st prefix st.recursive_ok) (λ u st' same less.
        Pays-trans 0 1 st' (see st' u) _ refl (omega arith)
          (pages-Pays (suc st'.budget) (see st' u) prefix u st.recursive_ok false [] (omega arith)))

  enter_child-Pays :
      (descend : WalkState → Bytes → Result (Unit {0})) (bound : ℕ)
      → ((st : WalkState) (child : Bytes) → st.budget ≤ bound → Pays 0 st (descend st child))
      → (covered : List Bytes) (st : WalkState) (child : Option Bytes)
        (next : WalkState → Result (Unit {0}))
      → st.budget ≤ bound
      → ((s : WalkState) → s.budget ≤ bound → Pays 0 s (next s))
      → Pays 0 st (enter_child lib w descend covered st child next)
  unfolding enter_child
  enter_child-Pays descend bound child-Pays covered st none next h rest = rest st h
  enter_child-Pays descend bound child-Pays covered st (some child) next h rest =
      if-rule (Pays 0 st) _ _ _ (λ _. rest st h)
        (λ _.
          Pays-trans 0 0 st (record st { visited = child ∷ st.visited }) _ refl (omega arith)
            (Pays-and_then 0 0 (record st { visited = child ∷ st.visited }) _ _
              (child-Pays (record st { visited = child ∷ st.visited }) child h)
              (λ _ st' same less. rest st' (omega arith))))

  pass_file-Pays :
      (st : WalkState) (n : Node) (e : Option ℕ) (next : WalkState → Result (Unit {0}))
      → Pays 0 (record st { files = n ∷ st.files }) (next (record st { files = n ∷ st.files }))
      → Pays 0 st (pass_file lib w st n e next)
  unfolding pass_file Pays
  pass_file-Pays st n none next rest =
      Pays-trans 0 0 st (record st { files = n ∷ st.files }) _ refl (omega arith) rest
  pass_file-Pays st n (some e) next rest = (refl, refl)

  visit_nodes-Pays :
      (descend : WalkState → Bytes → Result (Unit {0})) (bound : ℕ)
      → ((st : WalkState) (child : Bytes) → st.budget ≤ bound → Pays 0 st (descend st child))
      → (prefix : Bytes) (covered : List Bytes) (nodes : List Node) (st : WalkState)
      → st.budget ≤ bound
      → Pays 0 st (visit_nodes lib w descend prefix covered nodes st)
  unfolding visit_nodes enter_child pass_file Pays
  visit_nodes-Pays descend bound child-Pays prefix covered [] st h = (refl, omega arith)
  visit_nodes-Pays descend bound child-Pays prefix covered (n ∷ ns) st h =
      if-rule (Pays 0 st) (is_directory lib w n) _ _
        (λ _.
          enter_child-Pays descend bound child-Pays covered st (clean_child_dir prefix n.path) _ h
            (visit_nodes-Pays descend bound child-Pays prefix covered ns))
        (λ _. pass_file-Pays st n (w.visit_file st.files n) _ (
          visit_nodes-Pays descend bound child-Pays prefix covered ns
            (record st { files = n ∷ st.files }) h))

  walk-Pays :
      (fuel : ℕ) (st : WalkState) (prefix : Bytes)
      → st.budget < fuel
      → Pays 0 st (walk lib w fuel st prefix)
  unfolding walk
  walk-Pays zero st prefix enough = absurd (omega arith)
  walk-Pays (suc fuel) st prefix enough = Pays-weaken 0 st _ (
      Pays-trans 0 1 st (begin st prefix) _ refl (omega arith) (
        Pays-and_then 1 0 (begin st prefix) _ _ (list_all_pages-Pays (begin st prefix) prefix)
          (λ nodes st' same less.
            visit_nodes-Pays (walk lib w fuel) st'.budget
              (λ s child le. walk-Pays fuel s child (omega arith)) prefix (covered_subtrees nodes)
              nodes st' (omega arith))))

abbrev pub end_of : {A : Type 0} → Result A → WalkState
end_of (failed e st) = st
end_of (returned a st) = st

abbrev pub runs_out : {A : Type 0} → Result A → Bool
runs_out (failed e st) = is_stuck e
runs_out (returned a st) = false

end-Pays :
    {A : Type 0} (st : WalkState) (r : Result A)
    → Pays 0 st r
    → (runs_out r ≡ false) × (funds (end_of r) ≡ funds st)
unfolding Pays
end-Pays st (failed e st') h = (h.1, h.0)
end-Pays st (returned a st') h = (refl, h.0)

-- A walk comes to an end, and its requests, retries included, and the budget that is left add up to
-- the request limit, whatever the server and the caller's functions do.
pub walk_tree_ends :
    (lib : UrlLibrary) (w : World) (max_requests : ℕ) (prefix : Bytes)
    → let r = walk_tree lib w max_requests prefix in
      (runs_out r ≡ false) × (length (end_of r).sent + (end_of r).budget ≡ max_requests)
unfolding walk_tree
walk_tree_ends lib w max_requests prefix =
    let h =
      end-Pays (start max_requests) _
        (walk-Pays lib w (suc max_requests) (start max_requests) prefix (omega arith)) in
    (h.0, omega (arith, h.1))
