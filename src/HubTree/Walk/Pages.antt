-- ===== src/HubTree/Walk/Pages.antt =====
-- `pageURL` and `listAllPages` of internal/hubtree/hubtree.go.
use hfdesk.Base.{
  ℕ, zero, suc, Bool, true, false, not, ◌&&◌, ◌||◌, Option, none, some, List, [], ◌++◌, ◌==◌,
  if◌then◌else◌, Bytes,
}
use hfdesk.HubTree.Covered.{Node, has}
use hfdesk.HubTree.Links.{exhausted, follow, malformed, empty_target, next_link}
use hfdesk.HubTree.Walk.{
  UrlLibrary, World, WalkState, malformed_link, empty_next, unresolved, cross_origin, cycle,
  decoding, out_of_fuel, invalid_tree_url, status, pagination, Reply, Result, failed, returned,
  and_then, AfterPage, stops, complete, continues, origin_of, matches, resolve_next, see,
}
use hfdesk.HubTree.Walk.Fetch.{fetch}

module _ (lib : UrlLibrary) (w : World) where
  -- The first URL sets the origin.
  unfoldable pub built_url : WalkState → Bytes → Bool → Option lib.Url → Result Bytes
  unfolding origin_of
  built_url st raw recursive none = failed (invalid_tree_url raw) st
  built_url st raw recursive (some u) =
      returned (lib.to_string (if recursive then lib.add_recursive u else u))
        (record st { origin = elim st.origin [ none ↦ some (origin_of lib u) | some o ↦ some o ] })

  unfoldable pub page_url : WalkState → Bytes → Bool → Result Bytes
  unfolding built_url
  page_url st prefix recursive =
      built_url st (w.tree_url prefix) recursive (lib.parse (w.tree_url prefix))

  -- The origin is set by the time it is asked for.
  from_origin : WalkState → lib.Url → Bool
  unfolding matches
  from_origin st target = elim st.origin [ none ↦ false | some o ↦ matches lib o target ]

  unfoldable pub after_page : WalkState → Bytes → List Bytes → AfterPage
  unfolding resolve_next from_origin
  after_page st u links = elim (next_link links) [
    | exhausted ↦ complete
    | malformed entry ↦ stops (malformed_link entry)
    | empty_target ↦ stops empty_next
    | follow next ↦ elim (resolve_next lib u next) [
      | none ↦ stops (unresolved next)
      | some target ↦ elim (from_origin st target) [
        | false ↦ stops cross_origin
        | true ↦ elim (has st.seen_pages (lib.to_string target)) [
          | true ↦ stops (cycle (lib.to_string target))
          | false ↦ continues (lib.to_string target)
        ]
      ]
    ]
  ]

  -- A reply to a URL with the query parameter that the server refuses.
  abbrev rejects_recursive : Reply → Bool
  rejects_recursive reply = reply.head.status_code == 400 || reply.head.status_code == 422

  -- What a listing does with a page, with the rest of its loop as an argument.
  unfoldable pub turn_to :
      WalkState
      → List Node
      → AfterPage
      → (WalkState → Bytes → List Node → Result (List Node))
      → Result (List Node)
  turn_to st nodes (stops e) next = failed (pagination e) st
  turn_to st nodes complete next = returned nodes st
  turn_to st nodes (continues target) next = next (see st target) target nodes

  unfoldable pub decoded_page :
      WalkState
      → Bytes
      → List Node
      → List Bytes
      → Option (List Node)
      → (WalkState → Bytes → List Node → Result (List Node))
      → Result (List Node)
  unfolding turn_to after_page
  decoded_page st u nodes links none next = failed decoding st
  decoded_page st u nodes links (some page) next =
      turn_to st (nodes ++ page) (after_page st u links) next

  unfoldable pub accept_page :
      WalkState
      → Bytes
      → List Node
      → Reply
      → (WalkState → Bytes → List Node → Result (List Node))
      → Result (List Node)
  unfolding decoded_page
  accept_page st u nodes reply next =
      if reply.head.status_code == 200
      then decoded_page st u nodes reply.links reply.page next
      else failed (status reply.head.status_code) st

  -- The loop over the pages.
  unfoldable pub pages :
      ℕ → WalkState → Bytes → Bytes → Bool → Bool → List Node → Result (List Node)
  unfolding fetch page_url accept_page and_then
  pages zero st prefix u use_recursive from_link nodes = failed out_of_fuel st
  pages (suc fuel) st prefix u use_recursive from_link nodes =
      and_then (fetch lib w st u) (λ reply st'.
        if not from_link && (use_recursive && (st'.recursive_ok && rejects_recursive reply))
        then and_then (page_url (record st' { recursive_ok = false }) prefix false)
            (λ plain st''. pages fuel (see st'' plain) prefix plain false false nodes)
        else accept_page st' u nodes reply
            (λ st'' target nodes'. pages fuel st'' prefix target use_recursive true nodes'))

  unfoldable pub list_all_pages : WalkState → Bytes → Result (List Node)
  unfolding page_url pages and_then
  list_all_pages st prefix =
      and_then (page_url st prefix st.recursive_ok)
        (λ u st'. pages (suc st'.budget) (see st' u) prefix u st.recursive_ok false [])
