-- ===== src/HubTree/Walk.antt =====
-- The walk of internal/hubtree/hubtree.go. Its loops are recursions on fuel: a fetch on the attempts
-- that are left, a listing and the descent on one more than the requests that the budget allows.
pub mod Fetch
pub mod Pages
pub mod Descent
pub mod Payments
pub mod Budget
pub mod Attempts
pub mod Visits
use hfdesk.Base.{
  ℕ, zero, suc, ◌+◌, ◌-◌, Bool, true, false, not, ◌&&◌, ◌||◌, Option, none, some, List, [], ◌∷◌,
  ◌++◌, ◌==◌, ltb, if◌then◌else◌, Bytes, bytes_eq, equal_fold, codes, trim_space,
}
use hfdesk.Net.{Response}
use hfdesk.HubTree.Covered.{Node, covered_subtrees, has}
use hfdesk.HubTree.Links.{NextLink, exhausted, follow, malformed, empty_target, next_link}
use hfdesk.HubTree.Paths.{clean_child_dir}
use hfdesk.HubTree.Wait.{max_retryable_attempts, retryable_status, backoff_for, retry_wait}

-- What the walk reads of a reply, with the `Link` headers and the decoded body.
pub record Reply : Type 0 where
  pub head : Response
  pub links : List Bytes
  pub page : Option (List Node)

pub data Outcome : Type 0 where
  replied : Reply → Outcome
  transport_error : Outcome
  cancelled_request : Outcome
  bad_request : Outcome

pub data PaginationError : Type 0 where
  malformed_link : Bytes → PaginationError
  empty_next : PaginationError
  unresolved : Bytes → PaginationError
  cross_origin : PaginationError
  cycle : Bytes → PaginationError

-- The errors of a walk. `out_of_fuel` stands for a loop that does not end.
pub data WalkError : Type 0 where
  over_budget cancelled transport decoding out_of_fuel : WalkError
  invalid_tree_url invalid_request : Bytes → WalkError
  status : ℕ → WalkError
  pagination : PaginationError → WalkError
  callback : ℕ → WalkError

pub record TreeOrigin : Type 0 where
  pub scheme : Bytes
  pub hostname : Bytes
  pub port : Bytes

-- What the walk uses of net/url. `port_number` is a port spelled anew as a decimal number, and
-- `add_recursive` sets the query parameter.
pub record UrlLibrary : Type 1 where
  pub Url : Type 0
  pub parse : Bytes → Option Url
  pub scheme_of : Url → Bytes
  pub hostname_of : Url → Bytes
  pub port_of : Url → Bytes
  pub port_number : Bytes → Option Bytes
  pub resolve : Url → Url → Url
  pub add_recursive : Url → Url
  pub to_string : Url → Bytes

-- The world around a walk, as functions of the requests sent so far (newest first): the server, the
-- clock, whether a wait ends without cancellation, and the caller's functions.
pub record World : Type 0 where
  pub tree_url : Bytes → Bytes
  pub serve : List Bytes → Outcome
  pub clock : List Bytes → ℕ
  pub sleeps : List Bytes → ℕ → Bool
  pub visit_file : List Node → Node → Option ℕ
  pub parse_time : Bytes → Option ℕ

-- The state of a walk, with the requests that the budget paid for, the waits made, the files passed on and the
-- directories whose walk has begun.
pub record WalkState : Type 0 where
  pub visited : List Bytes
  pub entered : List Bytes
  pub seen_pages : List Bytes
  pub budget : ℕ
  pub recursive_ok : Bool
  pub origin : Option TreeOrigin
  pub sent : List Bytes
  pub waits : List ℕ
  pub files : List Node

-- A call that fails or returns a value, with the state behind it.
pub data Result (A : Type 0) : Type 0 where
  failed : WalkError → WalkState → Result A
  returned : A → WalkState → Result A

-- `if err != nil { return err }` behind a call.
unfoldable pub and_then : {A B : Type 0} → Result A → (A → WalkState → Result B) → Result B
and_then (failed e st) k = failed e st
and_then (returned a st) k = k a st

-- One attempt of a fetch: its end, or a retry after a wait, with the end of a last attempt.
pub data Attempt : Type 0 where
  ended : Result Reply → Attempt
  again : ℕ → Result Reply → WalkState → Attempt

-- Where a listing goes after a page.
pub data AfterPage : Type 0 where
  stops : PaginationError → AfterPage
  complete : AfterPage
  continues : Bytes → AfterPage

unfoldable pub origin_of : (lib : UrlLibrary) → lib.Url → TreeOrigin
origin_of lib u =
    let given = lib.port_of u in
    let scheme = lib.scheme_of u in
    record {
      scheme = scheme;
      hostname = lib.hostname_of u;
      port =
          if bytes_eq given []
          then (if bytes_eq scheme (codes "http")
              then codes "80"
              else (if bytes_eq scheme (codes "https") then codes "443" else given))
          else elim (lib.port_number given) [ none ↦ given | some n ↦ n ];
    }

unfoldable pub matches : (lib : UrlLibrary) → TreeOrigin → lib.Url → Bool
unfolding origin_of
matches lib o u =
    let other = origin_of lib u in
    bytes_eq o.scheme other.scheme
    && (equal_fold o.hostname other.hostname && bytes_eq o.port other.port)

unfoldable pub resolve_next : (lib : UrlLibrary) → Bytes → Bytes → Option lib.Url
resolve_next lib base ref = elim (lib.parse base) [
  | none ↦ none
  | some b ↦ elim (lib.parse (trim_space ref)) [ none ↦ none | some r ↦ some (lib.resolve b r) ]
]

-- `m[key] = true` for a map kept as its keys.
abbrev pub insert : List Bytes → Bytes → List Bytes
insert keys d = elim (has keys d) [ true ↦ keys | false ↦ d ∷ keys ]

abbrev pub see : WalkState → Bytes → WalkState
see st u = record st { seen_pages = insert st.seen_pages u }

-- The state that `Walk` begins with.
abbrev pub start : ℕ → WalkState
start max_requests = record {
  visited = [];
  entered = [];
  seen_pages = [];
  budget = max_requests;
  recursive_ok = true;
  origin = none;
  sent = [];
  waits = [];
  files = [];
}
