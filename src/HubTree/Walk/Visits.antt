-- ===== src/HubTree/Walk/Visits.antt =====
-- The directories that a walk descends into.
use hfdesk.Base.{
  ℕ, zero, suc, ◌≡◌, refl, sym, ap, subst, inl, inr, Bool, true, false, ◌||◌, Option, none, some,
  List, [], ◌∷◌, ◌++◌, ◌==◌, if-rule, Bytes, codes, has_prefix, arith,
}
use hfdesk.HubTree.Covered.{Node, covered_subtrees, has}
use hfdesk.HubTree.Paths.{clean_child_dir}
use hfdesk.HubTree.Paths.Proper.{IsUnder, clean_child_dir-IsUnder}
use hfdesk.HubTree.Walk.{
  UrlLibrary, World, WalkError, out_of_fuel, WalkState, Result, failed, returned, and_then,
  AfterPage, Reply, stops, complete, continues, start, see,
}
use hfdesk.HubTree.Walk.Descent.{
  enter_child, pass_file, visit_nodes, walk, walk_tree, is_directory, begin,
}
use hfdesk.HubTree.Walk.Fetch.{fetch}
use hfdesk.HubTree.Walk.Pages.{
  built_url, page_url, after_page, turn_to, decoded_page, accept_page, pages, list_all_pages,
}
use hfdesk.HubTree.Walk.Budget.{end_of}
use hfdesk.HubTree.Walk.Attempts.{fetch-Tries}

-- Each directory is new when it is entered, and a path of names under the root.
abbrev pub IsVisitLog : Bytes → List Bytes → Type 0
IsVisitLog root [] = Unit {0}
IsVisitLog root (d ∷ ds) = (has ds d ≡ false) × IsUnder root d × IsVisitLog root ds

-- The walk has been in the root first, and in the directories of the log after it, in their order.
abbrev pub IsLogged : Bytes → WalkState → Type 0
IsLogged root st = IsVisitLog root st.visited × (st.entered ≡ st.visited ++ root ∷ [])

-- A prefix under which every path is under the root.
abbrev IsWithin : Bytes → Bytes → Type 0
IsWithin root prefix = (path : Bytes) → IsUnder prefix path → IsUnder root path

has_prefix_trans :
    (s t u : Bytes) → has_prefix s t ≡ true → has_prefix t u ≡ true → has_prefix s u ≡ true
unfolding has_prefix
has_prefix_trans s t [] h k = refl
has_prefix_trans s [] (c ∷ u) h k = absurd (ground arith)
has_prefix_trans [] (d ∷ t) (c ∷ u) h k = absurd (ground arith)
has_prefix_trans (e ∷ s) (d ∷ t) (c ∷ u) h k = let rec = has_prefix_trans s t u in ground arith

has_prefix-append : (t u : Bytes) → has_prefix (t ++ u) t ≡ true
unfolding has_prefix
has_prefix-append [] u = refl
has_prefix-append (c ∷ t) u = let rec = has_prefix-append t u in ground arith

no_prefix : (root : Bytes) → has_prefix [] (root ++ codes "/") ≡ false
unfolding has_prefix
no_prefix [] = refl
no_prefix (c ∷ root) = refl

-- A directory under the root is a prefix within it.
IsUnder-IsWithin : (root d : Bytes) → IsUnder root d → IsWithin root d
IsUnder-IsWithin root d under path u = record {
  name = u.name;
  names = u.names;
  all = u.all;
  spelled = u.spelled;
  below = elim under.below [
    | inl top ↦ inl top
    | inr inside ↦ elim u.below [
      | inl top ↦ absurd (
          ground (
            arith,
            subst (λ t. has_prefix t (root ++ codes "/") ≡ true) top inside,
            no_prefix root,
          ))
      | inr deeper ↦ inr (
          has_prefix_trans path (d ++ codes "/") (root ++ codes "/") deeper (
            has_prefix_trans (d ++ codes "/") d (root ++ codes "/")
              (has_prefix-append d (codes "/")) inside))
    ]
  ];
}

Log : {A : Type 0} → Bytes → Result A → Type 0
Log root r = IsLogged root (end_of r)

Log-failed :
    (A : Type 0) (root : Bytes) (e : WalkError) (st : WalkState)
    → IsLogged root st
    → Log {A = A} root (failed e st)
unfolding Log
Log-failed A root e st h = h

Log-and_then :
    {A B : Type 0} (root : Bytes) (r : Result A) (f : A → WalkState → Result B)
    → Log root r
    → ((a : A) (st : WalkState) → IsLogged root st → Log root (f a st))
    → Log root (and_then r f)
unfolding Log and_then
Log-and_then root (failed e st) f h next = h
Log-and_then root (returned a st) f h next = next a st h

module _ (lib : UrlLibrary) (w : World) (root : Bytes) where
  fetch-Log : (st : WalkState) (u : Bytes) → IsLogged root st → Log root (fetch lib w st u)
  unfolding Log
  fetch-Log st u h =
      subst (λ m. IsVisitLog root m.0 × (m.1 ≡ m.0 ++ root ∷ []))
        (sym (fetch-Tries lib w st u).visited_eq) h

  page_url-Log :
      (st : WalkState) (prefix : Bytes) (recursive : Bool)
      → IsLogged root st
      → Log root (page_url lib w st prefix recursive)
  unfolding page_url built_url Log
  page_url-Log st prefix recursive h = go (lib.parse (w.tree_url prefix))
    where
      go : (u : Option lib.Url) → Log root (built_url lib w st (w.tree_url prefix) recursive u)
      go none = h
      go (some u) = h

  accept_page-Log :
      (st : WalkState) (u : Bytes) (nodes : List Node) (reply : Reply)
      (next : WalkState → Bytes → List Node → Result (List Node))
      → IsLogged root st
      → ((s : WalkState) (target : Bytes) (all : List Node)
          → IsLogged root s
          → Log root (next s target all))
      → Log root (accept_page lib w st u nodes reply next)
  unfolding accept_page decoded_page turn_to Log
  accept_page-Log st u nodes reply next h rest =
      if-rule (λ (r : Result (List Node)). Log root r) (reply.head.status_code == 200) _ _
        (λ _. decoded reply.page) (λ _. h)
    where
      turned : (all : List Node) (a : AfterPage) → Log root (turn_to lib w st all a next)
      turned all (stops e) = h
      turned all complete = h
      turned all (continues target) = rest (see st target) target all h

      decoded :
          (page : Option (List Node))
          → Log root (decoded_page lib w st u nodes reply.links page next)
      decoded none = h
      decoded (some page) = turned (nodes ++ page) (after_page lib w st u reply.links)

  pages-Log :
      (fuel : ℕ) (st : WalkState) (prefix u : Bytes) (use_recursive from_link : Bool)
      (nodes : List Node)
      → IsLogged root st
      → Log root (pages lib w fuel st prefix u use_recursive from_link nodes)
  unfolding pages
  pages-Log zero st prefix u use_recursive from_link nodes h = Log-failed _ root out_of_fuel st h
  pages-Log (suc fuel) st prefix u use_recursive from_link nodes h =
      Log-and_then root _ _ (fetch-Log st u h) (λ reply st' k.
        if-rule (λ (r : Result (List Node)). Log root r) _ _ _
          (λ _.
            Log-and_then root _ _
              (page_url-Log (record st' { recursive_ok = false }) prefix false k)
              (λ plain st'' k'. pages-Log fuel (see st'' plain) prefix plain false false nodes k'))
          (λ _.
            accept_page-Log st' u nodes reply _ k
              (λ s target all k'. pages-Log fuel s prefix target use_recursive true all k')))

  list_all_pages-Log :
      (st : WalkState) (prefix : Bytes)
      → IsLogged root st
      → Log root (list_all_pages lib w st prefix)
  unfolding list_all_pages
  list_all_pages-Log st prefix h =
      Log-and_then root _ _ (page_url-Log st prefix st.recursive_ok h)
        (λ u st' k. pages-Log (suc st'.budget) (see st' u) prefix u st.recursive_ok false [] k)

  -- A walk of a directory under the root keeps the log.
  KeepsLog : (WalkState → Bytes → Result (Unit {0})) → Type 0
  KeepsLog descend =
      (st : WalkState) (child : Bytes)
      → IsUnder root child
      → IsLogged root (begin st child)
      → Log root (descend st child)

  enter_child-Log :
      (descend : WalkState → Bytes → Result (Unit {0}))
      → KeepsLog descend
      → (covered : List Bytes) (st : WalkState) (child : Option Bytes)
        (next : WalkState → Result (Unit {0}))
      → ((c : Bytes) → child ≡ some c → IsUnder root c)
      → IsLogged root st
      → ((s : WalkState) → IsLogged root s → Log root (next s))
      → Log root (enter_child lib w descend covered st child next)
  unfolding enter_child KeepsLog
  enter_child-Log descend keeps covered st none next under h rest = rest st h
  enter_child-Log descend keeps covered st (some child) next under h rest =
      if-rule (λ (r : Result (Unit {0})). Log root r) (has covered child || has st.visited child) _
        _ (λ _. rest st h)
        (λ new.
          let child_under = under child refl in
          let fresh : has st.visited child ≡ false = ground arith in
          Log-and_then root _ _
            (keeps (record st { visited = child ∷ st.visited }) child child_under
              ((fresh, child_under, h.0), ap (λ t. child ∷ t) h.1))
            (λ _ s k. rest s k))

  visit_nodes-Log :
      (descend : WalkState → Bytes → Result (Unit {0}))
      → KeepsLog descend
      → (prefix : Bytes) → IsWithin root prefix
      → (covered : List Bytes) (nodes : List Node) (st : WalkState) → IsLogged root st
      → Log root (visit_nodes lib w descend prefix covered nodes st)
  unfolding visit_nodes pass_file Log
  visit_nodes-Log descend keeps prefix within covered [] st h = h
  visit_nodes-Log descend keeps prefix within covered (n ∷ ns) st h =
      let rest = visit_nodes-Log descend keeps prefix within covered ns in
      if-rule (λ (r : Result (Unit {0})). Log root r) (is_directory lib w n) _ _
        (λ _.
          enter_child-Log descend keeps covered st (clean_child_dir prefix n.path) _
            (λ c e. within c (clean_child_dir-IsUnder prefix n.path c e)) h rest)
        (λ _. passed (w.visit_file st.files n) (rest (record st { files = n ∷ st.files }) h))
    where
      passed :
          (e : Option ℕ)
          → Log root
              (visit_nodes lib w descend prefix covered ns (record st { files = n ∷ st.files }))
          → Log root (pass_file lib w st n e (visit_nodes lib w descend prefix covered ns))
      passed none k = k
      passed (some e) k = h

  walk-Log :
      (fuel : ℕ) (st : WalkState) (prefix : Bytes)
      → IsWithin root prefix
      → IsLogged root (begin st prefix)
      → Log root (walk lib w fuel st prefix)
  unfolding walk KeepsLog
  walk-Log zero st prefix within h = Log-failed _ root out_of_fuel (begin st prefix) h
  walk-Log (suc fuel) st prefix within h =
      Log-and_then root _ _ (list_all_pages-Log (begin st prefix) prefix h) (λ nodes s k.
        visit_nodes-Log (walk lib w fuel)
          (λ st' child under k'. walk-Log fuel st' child (IsUnder-IsWithin root child under) k')
          prefix within (covered_subtrees nodes) nodes s k)

-- A walk begins in the prefix that it was asked for, and every other directory that it lists is a new one
-- each time, marked as visited, and a path of proper names under that prefix: it lists no directory twice.
pub walk_tree_visits :
    (lib : UrlLibrary) (w : World) (max_requests : ℕ) (prefix : Bytes)
    → IsLogged prefix (end_of (walk_tree lib w max_requests prefix))
unfolding walk_tree Log
walk_tree_visits lib w max_requests prefix =
    walk-Log lib w prefix (suc max_requests) (start max_requests) prefix (λ path u. u) (tt, refl)
