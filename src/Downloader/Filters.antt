-- ===== src/Downloader/Filters.antt =====
-- pkg/hfdownloader/plan.go: how filters and excludes match the paths of a repository, and what kind
-- of file a path names.
pub mod Exact
use hfdesk.Base.{
  ℕ, zero, suc, Bool, true, false, not, ◌&&◌, ◌||◌, Option, none, some, List, [], ◌∷◌, ◌++◌, ◌==◌,
  if◌then◌else◌, any, length, Bytes, bytes_eq, codes, cut_prefix, has_prefix, split, trim_space,
  contains, fields_by, has_suffix, trim_prefix, trim_suffix, with_slashes, lowered, path_base,
  starts_free, index_from,
}

abbrev pub is_filter_delimiter : ℕ → Bool
is_filter_delimiter c = c == b'-' || (c == b'.' || c == b' ')

-- The search loop of `filterMatches`, with the text before `start` reversed. Each round starts a byte
-- behind the last occurrence.
unfoldable pub bounded_from : ℕ → Bytes → Bytes → Bytes → Bool
unfolding index_from
bounded_from zero f before s = false
bounded_from (suc fuel) f before s = elim (index_from f before s) [
  | none ↦ false
  | some (front, found) ↦
      if starts_free is_filter_delimiter front && elim (cut_prefix found f) [
        | none ↦ false
        | some behind ↦ starts_free is_filter_delimiter behind
      ]
      then true
      else elim found [ [] ↦ false | c ∷ rest ↦ bounded_from fuel f (c ∷ front) rest ]
]

unfoldable pub filter_matches : Bytes → Bytes → Bool → Bool
unfolding bounded_from fields_by contains
filter_matches name f exact =
    if not exact
    then contains name f
    else (if any (bytes_eq f) (fields_by is_filter_delimiter name)
        then true
        else (if contains f (codes "-") || (contains f (codes ".") || contains f (codes " "))
            then bounded_from (suc (length name)) f [] name
            else false))

abbrev pub filter_text : Bytes → Bytes
filter_text filter = lowered (with_slashes (trim_space filter))

-- The base name that "./name" selects at the root.
unfoldable pub root_name : Bytes → Option Bytes
unfolding contains
root_name name =
    if bytes_eq name []
      || (bytes_eq name (codes ".") || (bytes_eq name (codes "..") || contains name (codes "/")))
    then none
    else some name

-- The exact forms, on a path and a filter in lower case.
unfoldable pub matches_form : Bytes → Bytes → Bool
unfolding filter_matches contains root_name
matches_form rel filter =
    if has_suffix filter (codes "/")
    then (let dir = trim_suffix filter (codes "/") in
        has_prefix rel (dir ++ codes "/") || contains rel (codes "/" ++ dir ++ codes "/"))
    else (if has_prefix filter (codes ".")
          && not (contains (trim_prefix filter (codes ".")) (codes "/"))
        then has_suffix rel filter
        else elim (cut_prefix filter (codes "./")) [
          | some name ↦ elim (root_name name) [ none ↦ false | some n ↦ bytes_eq rel n ]
          | none ↦
              if contains filter (codes "/")
              then bytes_eq rel filter
              else any (λ part. filter_matches part filter true) (split b'/' rel)
        ])

unfoldable pub filter_matches_path : Bytes → Bytes → Bool → Bool
unfolding matches_form contains
filter_matches_path rel filter exact =
    let r = lowered (with_slashes rel) in
    let f = filter_text filter in
    if bytes_eq r [] || bytes_eq f []
    then false
    else (if not exact then contains r f else matches_form r f)

unfoldable pub filter_attribution : Bytes → Bool → Bytes
unfolding root_name
filter_attribution filter exact =
    if not exact
    then filter
    else (let f = with_slashes (trim_space filter) in
        elim (cut_prefix f (codes "./")) [
          | none ↦ f
          | some name ↦ elim (root_name name) [ none ↦ f | some n ↦ n ]
        ])

unfoldable pub is_excluded_path : Bytes → List Bytes → Bool
unfolding path_base contains
is_excluded_path rel excludes =
    any
      (λ ex. contains (lowered (path_base rel)) (lowered ex) || contains (lowered rel) (lowered ex))
      excludes

unfoldable pub is_gguf_file_path : Bytes → Bool
is_gguf_file_path path =
    has_suffix (lowered path) (codes ".gguf") || has_suffix (lowered path) (codes ".gguf-split")

-- Some filter matches the path.
abbrev pub some_filter_matches : Bytes → List Bytes → Bool → Bool
some_filter_matches rel filters exact = any (λ f. filter_matches_path rel f exact) filters

unfoldable pub gguf_path_selected : Bytes → List Bytes → List Bytes → Bool → Bool
unfolding is_gguf_file_path is_excluded_path filter_matches_path path_base
gguf_path_selected path filters excludes exact =
    if not (is_gguf_file_path (lowered (path_base path)))
    then false
    else (if is_excluded_path path excludes
        then false
        else elim filters [ [] ↦ true | f ∷ fs ↦ some_filter_matches path (f ∷ fs) exact ])
