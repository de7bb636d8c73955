-- ===== src/HubTree/Paths.antt =====
-- `path.Clean` and `cleanChildDir` of internal/hubtree/hubtree.go.
pub mod Stack
pub mod Proper
use hfdesk.Base.{
  ℕ, Bool, true, false, ◌||◌, Option, none, some, List, [], ◌∷◌, ◌++◌, ◌==◌, if◌then◌else◌, Bytes,
  bytes_eq, codes, has_prefix, split,
}

-- The stack of elements that are kept, innermost first. An element `..` takes back a name.
unfoldable pub push_element : Bool → List Bytes → Bytes → List Bytes
push_element rooted stack e =
    if bytes_eq e [] || bytes_eq e (codes ".")
    then stack
    else (if bytes_eq e (codes "..")
        then elim stack [
          | [] ↦ if rooted then [] else e ∷ []
          | top ∷ below ↦ if bytes_eq top (codes "..") then e ∷ top ∷ below else below
        ]
        else e ∷ stack)

unfoldable pub push_elements : Bool → List Bytes → List Bytes → List Bytes
unfolding push_element
push_elements rooted stack [] = stack
push_elements rooted stack (e ∷ es) = push_elements rooted (push_element rooted stack e) es

-- The elements of a stack with slashes between them.
unfoldable pub joined : List Bytes → Bytes → Bytes
joined [] acc = acc
joined (e ∷ below) acc = joined below (e ++ b'/' ∷ acc)

unfoldable pub join_stack : List Bytes → Bytes
unfolding joined
join_stack [] = []
join_stack (e ∷ below) = joined below e

-- `path.Clean`.
unfoldable pub clean : Bytes → Bytes
unfolding push_elements join_stack
clean p =
    let rooted = has_prefix p (codes "/") in
    let kept = join_stack (push_elements rooted [] (split b'/' p)) in
    if rooted then b'/' ∷ kept else (if bytes_eq kept [] then codes "." else kept)

unfoldable pub clean_child_dir : Bytes → Bytes → Option Bytes
unfolding clean
clean_child_dir prefix dir =
    if bytes_eq dir [] || has_prefix dir (codes "/")
    then none
    else (let cleaned = clean dir in
        if (bytes_eq cleaned (codes ".") || bytes_eq cleaned (codes ".."))
          || has_prefix cleaned (codes "../")
        then none
        else (if bytes_eq prefix []
            then some cleaned
            else (if has_prefix cleaned (prefix ++ codes "/") then some cleaned else none)))
