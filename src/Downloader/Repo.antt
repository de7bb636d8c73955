-- ===== src/Downloader/Repo.antt =====
-- pkg/hfdownloader: what names a repository, a file in it and its content. The path checks of plan.go,
-- the repository names of utils.go and the URLs of client.go, on a Unix system.
pub mod Canonical
use hfdesk.Base.{
  ℕ, ◌+◌, ◌-◌, ◌/◌, ◌%◌, Bool, true, false, not, ◌&&◌, ◌||◌, Option, none, some, List, [], ◌∷◌,
  ◌++◌, ◌==◌, leb, ltb, if◌then◌else◌, any, length, Bytes, bytes_eq, codes, has_prefix, split,
  contains, trim_suffix, with_slashes,
}
use hfdesk.HubTree.Paths.{clean}

unfoldable pub unsafe_repo_path : Bytes → Bool
unfolding clean
unsafe_repo_path rel =
    let cleaned = clean rel in
    if bytes_eq rel []
    then true
    else (if any (λ c. c == b'\\') rel || has_prefix rel (codes "/")
        then true
        else (if bytes_eq cleaned (codes ".")
              || (bytes_eq cleaned (codes "..") || has_prefix cleaned (codes "../"))
            then true
            else not (bytes_eq cleaned rel)))

abbrev pub is_hex : ℕ → Bool
is_hex c = (leb b'0' c && leb c b'9') || ((leb b'a' c && leb c b'f') || (leb b'A' c && leb c b'F'))

unfoldable pub canonical_sha256 : Bytes → Bool
canonical_sha256 sha = if not (length sha == 64) then false else not (any (λ c. not (is_hex c)) sha)

unfoldable pub unsafe_blob_name : Bytes → Bool
unfolding clean canonical_sha256
unsafe_blob_name sha =
    let cleaned = clean sha in
    if bytes_eq sha []
    then false
    else (if any (λ c. c == b'/' || c == b'\\') sha || has_prefix sha (codes "/")
        then true
        else (if bytes_eq cleaned (codes ".")
              || (bytes_eq cleaned (codes "..") || has_prefix cleaned (codes "../"))
            then true
            else not (canonical_sha256 sha)))

abbrev is_commit_char : ℕ → Bool
is_commit_char c =
    (leb b'0' c && leb c b'9')
    || ((leb b'a' c && leb c b'z')
        || ((leb b'A' c && leb c b'Z') || (c == b'.' || (c == b'-' || c == b'_'))))

unfoldable pub safe_commit_name : Bytes → Bool
safe_commit_name commit =
    if (bytes_eq commit [] || ltb 128 (length commit))
      || (bytes_eq commit (codes ".") || bytes_eq commit (codes ".."))
    then false
    else not (any (λ c. not (is_commit_char c)) commit)

-- One of the two segments of a repository name.
abbrev is_bad_segment : Bytes → Bool
is_bad_segment seg =
    bytes_eq seg (codes ".") || (bytes_eq seg (codes "..") || any (λ c. c == b'\\' || c == 0) seg)

unfoldable pub is_valid_model_name : Bytes → Bool
is_valid_model_name name = elim (split b'/' name) [
  | [] ↦ false
  | owner ∷ rest ↦ elim rest [
    | [] ↦ false
    | repo ∷ more ↦ elim more [
      | [] ↦
          if bytes_eq owner [] || bytes_eq repo []
          then false
          else not (is_bad_segment owner || is_bad_segment repo)
      | third ∷ others ↦ false
    ]
  ]
]

-- A filter that names a path where `AppendFilterSubdir` wants one directory name.
unfoldable pub is_path_filter : Bytes → Bool
unfolding contains
is_path_filter filter =
    let f = with_slashes filter in
    bytes_eq f (codes ".") || (bytes_eq f (codes "..") || contains f (codes "/"))

-- The `Job` of types.go, as far as planning reads it.
pub record Job : Type 0 where
  pub repo : Bytes
  pub is_dataset : Bool
  pub revision : Bytes
  pub branch_variant : Bool
  pub filters : List Bytes
  pub excludes : List Bytes
  pub exact_match : Bool
  pub append_filter_subdir : Bool
  pub local_repo : Bytes

pub data JobError : Type 0 where
  missing_repo invalid_repo variant_of_dataset variant_without_revision variant_with_filters :
      JobError
  path_filters : List Bytes → JobError

abbrev path_filters_of : List Bytes → List Bytes
path_filters_of [] = []
path_filters_of (f ∷ fs) =
    let rest = path_filters_of fs in if is_path_filter f then f ∷ rest else rest

unfoldable pub validate_append_filter_subdir_filters : List Bytes → Option JobError
unfolding is_path_filter
validate_append_filter_subdir_filters filters = elim (path_filters_of filters) [
  | [] ↦ none
  | f ∷ fs ↦ some (path_filters (f ∷ fs))
]

abbrev pub is_empty {ℓ} : {A : Type ℓ} → List A → Bool
is_empty [] = true
is_empty (x ∷ xs) = false

unfoldable pub validate : Job → Option JobError
unfolding is_valid_model_name validate_append_filter_subdir_filters
validate job =
    let subdirs =
      if job.append_filter_subdir
      then validate_append_filter_subdir_filters job.filters
      else none in
    if bytes_eq job.repo []
    then some missing_repo
    else (if not (is_valid_model_name job.repo)
        then some invalid_repo
        else (if not job.branch_variant
            then subdirs
            else (if job.is_dataset
                then some variant_of_dataset
                else (if bytes_eq job.revision []
                    then some variant_without_revision
                    else (if (not (is_empty job.filters) || not (is_empty job.excludes))
                          || (job.append_filter_subdir || not (bytes_eq job.local_repo []))
                        then some variant_with_filters
                        else subdirs)))))

-- `url.PathEscape`.
abbrev is_path_char : ℕ → Bool
is_path_char c =
    ((leb b'0' c && leb c b'9') || ((leb b'a' c && leb c b'z') || (leb b'A' c && leb c b'Z')))
    || any (λ d. c == d) (codes "-_.~$&+:=@")

hex_digit : ℕ → ℕ
hex_digit n = if ltb n 10 then b'0' + n else b'A' + (n - 10)

unfoldable pub path_escape : Bytes → Bytes
unfolding hex_digit
path_escape [] = []
path_escape (c ∷ s) =
    let rest = path_escape s in
    if is_path_char c then c ∷ rest else b'%' ∷ hex_digit (c / 16) ∷ hex_digit (c % 16) ∷ rest

-- `strings.Join(segs, "/")`, with each segment escaped.
unfoldable pub escaped_segments : List Bytes → Bytes
unfolding path_escape
escaped_segments [] = []
escaped_segments (seg ∷ segs) = elim segs [
  | [] ↦ path_escape seg
  | _ ∷ _ ↦ path_escape seg ++ codes "/" ++ escaped_segments segs
]

unfoldable pub path_escape_all : Bytes → Bytes
unfolding escaped_segments
path_escape_all p = escaped_segments (split b'/' p)

unfoldable pub get_endpoint : Bytes → Bytes
get_endpoint endpoint =
    if bytes_eq endpoint []
    then codes "https://huggingface.co"
    else trim_suffix endpoint (codes "/")

-- `rawURL` with "raw" and `lfsURL` with "resolve", at a revision.
file_url : Bytes → Bytes → Bytes → Job → Bytes → Bytes
unfolding get_endpoint path_escape path_escape_all
file_url verb endpoint revision job path =
    get_endpoint endpoint
    ++ (if job.is_dataset then codes "/datasets/" else codes "/")
    ++ job.repo
    ++ verb
    ++ path_escape revision
    ++ codes "/"
    ++ path_escape_all path

unfoldable pub raw_url : Bytes → Bytes → Job → Bytes → Bytes
unfolding file_url
raw_url = file_url (codes "/raw/")

unfoldable pub lfs_url : Bytes → Bytes → Job → Bytes → Bytes
unfolding file_url
lfs_url = file_url (codes "/resolve/")
