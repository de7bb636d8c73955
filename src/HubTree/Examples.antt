-- ===== src/HubTree/Examples.antt =====
-- The theorems on internal/hubtree/hubtree.go at concrete headers, listings and servers.
use hfdesk.Base.{
  ◌≡◌, refl, true, false, [], ◌∷◌, ◌++◌, arith, Bytes, codes, some, none, ℕ, Option, ◌⊎◌,
  has_prefix, any, split, split_from, trim, trim_left, bytes_eq, length, ◌+◌, min, ◌*◌, ◌^◌, ◌≤◌,
}
use Prim.Native.String.{String}
use hfdesk.Net.{Response}
use hfdesk.Downloader.Retry.{retry_after_from_response}
use hfdesk.HubTree.Links.{next_link, follow, split_link_parts}
use hfdesk.HubTree.Links.Split.{
  LinkEntry, AreEntries, entry_text, header_text, split_link_parts-header_text,
}
use hfdesk.HubTree.Links.Next.{next_link_follows, rel_suffix}
use hfdesk.HubTree.Covered.{Node, covered_subtrees, has}
use hfdesk.HubTree.Covered.Index.{covered_subtrees-has}
use hfdesk.HubTree.Wait.{backoff_for, server_hint, retry_wait, max_retry_wait, retry_backoff_base}
use hfdesk.HubTree.Wait.Policy.{backoff_for_lem, server_hint_eq, retry_wait_bounds}
use hfdesk.HubTree.Paths.{clean_child_dir, clean, push_elements, push_element, join_stack, joined}
use hfdesk.HubTree.Paths.Proper.{IsUnder, clean_child_dir-IsUnder}
use hfdesk.HubTree.Walk.{UrlLibrary, World, replied, start}
use hfdesk.HubTree.Walk.Descent.{walk_tree}
use hfdesk.HubTree.Walk.Fetch.{fetch}
use hfdesk.HubTree.Walk.Budget.{end_of, runs_out, walk_tree_ends}
use hfdesk.HubTree.Walk.Attempts.{fetch-Tries, Tries}
use hfdesk.HubTree.Walk.Visits.{walk_tree_visits, IsLogged}

abbrev first_entry : LinkEntry
first_entry = record { target = codes "/a,b"; key = codes " t"; value = codes "c, <d" }

abbrev next_entry : LinkEntry
next_entry = record { target = codes "/p2"; key = codes " rel"; value = codes "next" }

two_entries : AreEntries (first_entry ∷ next_entry ∷ [])
two_entries = ground arith

split_link_parts-header_text_example :
    split_link_parts (header_text first_entry (next_entry ∷ [])) b','
    ≡ entry_text first_entry ∷ entry_text next_entry ∷ []
split_link_parts-header_text_example =
    split_link_parts-header_text first_entry (next_entry ∷ []) two_entries

next_link_follows_example :
    next_link ((b'<' ∷ (codes "/p2" ++ rel_suffix)) ∷ []) ≡ follow (codes "/p2")
unfolding trim trim_left
next_link_follows_example =
    next_link_follows (codes "/p2") []
      (
        λ e. omega arith,
        λ e. omega arith,
        λ e. omega arith,
        (
          λ e. omega arith,
          λ e. omega arith,
          λ e. omega arith,
          (λ e. omega arith, λ e. omega arith, λ e. omega arith, tt),
        ),
      )
      (λ e. ground arith)

abbrev file : String → Node
file path = record { kind = codes "file"; path = codes path; size = 1; lfs = none; sha256 = [] }

abbrev dir : String → Node
dir path = record { kind = codes "directory"; path = codes path; size = 0; lfs = none; sha256 = [] }

covered_subtrees-has_example :
    has (covered_subtrees (file "a/b/c" ∷ file "a/d" ∷ [])) (codes "a/b")
    ≡ any (λ n. has_prefix n.path (codes "a/b" ++ b'/' ∷ [])) (file "a/b/c" ∷ file "a/d" ∷ [])
covered_subtrees-has_example = covered_subtrees-has (file "a/b/c" ∷ file "a/d" ∷ []) (codes "a/b")

backoff_for_lem_example : backoff_for 3 ≡ min (retry_backoff_base * 2 ^ 3) max_retry_wait
backoff_for_lem_example = backoff_for_lem 3

-- No date is read.
abbrev no_time : Bytes → Option ℕ
no_time v = none

abbrev head : ℕ → Response
head code = record {
  status_code = code;
  retry_after = codes "7";
  rate_limit = codes "\"api\";r=0;t=55";
}

server_hint_eq_example :
    server_hint no_time (some (head 429)) 0 ≡ retry_after_from_response no_time (some (head 429)) 0
server_hint_eq_example = server_hint_eq no_time (some (head 429)) 0

retry_wait_bounds_example :
    (retry_wait no_time (some (head 429)) 250_000_000 0 ≤ max_retry_wait)
    × ((retry_wait no_time (some (head 429)) 250_000_000 0 ≡ max_retry_wait)
        ⊎ ((250_000_000 ≤ retry_wait no_time (some (head 429)) 250_000_000 0)
            × (retry_after_from_response no_time (some (head 429)) 0
                ≤ retry_wait no_time (some (head 429)) 250_000_000 0)))
retry_wait_bounds_example = retry_wait_bounds no_time (some (head 429)) 250_000_000 0

clean_child_dir-IsUnder_example : IsUnder (codes "a") (codes "a/c")
unfolding clean_child_dir clean push_elements push_element join_stack joined split split_from
    bytes_eq has_prefix
clean_child_dir-IsUnder_example =
    clean_child_dir-IsUnder (codes "a") (codes "a//b/../c/") (codes "a/c") refl

-- URLs that are plain texts, and a server with a page for the root and another one for `sub`.
abbrev plain_urls : UrlLibrary
plain_urls = record {
  Url = Bytes;
  parse = λ s. some s;
  scheme_of = λ u. codes "https";
  hostname_of = λ u. codes "hub";
  port_of = λ u. [];
  port_number = λ p. some p;
  resolve = λ b r. r;
  add_recursive = λ u. u ++ codes "?r";
  to_string = λ u. u;
}

abbrev server : World
server = record {
  tree_url = λ prefix. codes "/tree/" ++ prefix;
  serve = λ sent. replied (elim sent [
    | [] ↦ record { head = head 500; links = []; page = none }
    | u ∷ [] ↦ record { head = head 503; links = []; page = none }
    | u ∷ v ∷ [] ↦ record { head = head 200; links = []; page = some (dir "sub" ∷ file "a" ∷ []) }
    | u ∷ v ∷ x ∷ r ↦ record { head = head 200; links = []; page = some (file "sub/b" ∷ []) }
  ]);
  clock = λ sent. length sent;
  sleeps = λ sent d. true;
  visit_file = λ files n. none;
  parse_time = no_time;
}

walk_tree_ends_example :
    (runs_out (walk_tree plain_urls server 10 []) ≡ false)
    × (length (end_of (walk_tree plain_urls server 10 [])).sent
          + (end_of (walk_tree plain_urls server 10 [])).budget
        ≡ 10)
walk_tree_ends_example = walk_tree_ends plain_urls server 10 []

fetch-Tries_example :
    Tries 5
      (codes "/tree/")
      (start 10)
      (end_of (fetch plain_urls server (start 10) (codes "/tree/")))
fetch-Tries_example = fetch-Tries plain_urls server (start 10) (codes "/tree/")

walk_tree_visits_example : IsLogged [] (end_of (walk_tree plain_urls server 10 []))
walk_tree_visits_example = walk_tree_visits plain_urls server 10 []
