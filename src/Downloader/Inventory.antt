-- ===== src/Downloader/Inventory.antt =====
-- pkg/hfdownloader/plan.go and client.go: the files of a repository as the tree walk gives them, the
-- items of a plan, and the tests on a whole inventory.
use hfdesk.Base.{
  Bool, true, false, not, ◌&&◌, ◌||◌, Option, List, [], ◌∷◌, if◌then◌else◌, any, Bytes, bytes_eq,
  codes, has_prefix, ℤ, is_one_of,
}
use hfdesk.HubTree.Paths.{clean}
use hfdesk.Downloader.Repo.{Job, JobError, unsafe_repo_path}
use hfdesk.Downloader.Filters.{
  filter_matches_path, filter_text, is_excluded_path, some_filter_matches,
}

-- `hfLfsInfo` and `hfNode` of client.go.
pub record LfsInfo : Type 0 where
  pub oid : Bytes
  pub size : ℤ
  pub sha256 : Bytes

pub record Node : Type 0 where
  pub kind : Bytes
  pub path : Bytes
  pub size : ℤ
  pub lfs : Option LfsInfo
  pub sha256 : Bytes

pub record PlanItem : Type 0 where
  pub relative_path : Bytes
  pub url : Bytes
  pub lfs : Bool
  pub sha256 : Bytes
  pub size : ℤ
  pub accept_ranges : Bool
  pub subdir : Bytes
  pub destination_subdir : Bytes

pub record Plan : Type 0 where
  pub items : List PlanItem
  pub commit : Bytes
  pub commit_resolved : Bool

pub data PlanError : Type 0 where
  non_canonical_path : Bytes → Bytes → PlanError
  unsafe_path : Bytes → PlanError
  bad_sha256 : Bytes → Bytes → PlanError
  no_filter_match : PlanError
  dataset_error : PlanError
  invalid_job : JobError → PlanError

-- What a Go function that returns a value and an error gives.
pub data Planned {ℓ} (A : Type ℓ) : Type ℓ where
  failed : PlanError → Planned A
  planned : A → Planned A

infixl 5 ◌>>=◌ ◌>>◌
abbrev pub ◌>>=◌ {ℓ κ} : {A : Type ℓ} {B : Type κ} → Planned A → (A → Planned B) → Planned B
failed e >>= f = failed e
planned a >>= f = f a

abbrev pub ◌>>◌ {ℓ} : {B : Type ℓ} → Planned (Unit {0}) → Planned B → Planned B
m >> k = m >>= λ _. k

-- The callback of the walk: the files, in the order of the visits.
unfoldable pub visit_node : Node → Planned Bool
unfolding unsafe_repo_path clean
visit_node n =
    let cleaned = clean n.path in
    if bytes_eq n.kind (codes "file") || bytes_eq n.kind (codes "blob")
    then (if unsafe_repo_path n.path
        then (if not (bytes_eq cleaned n.path)
              && not (
                  bytes_eq cleaned (codes ".")
                  || (bytes_eq cleaned (codes "..") || has_prefix cleaned (codes "../")))
            then failed (non_canonical_path n.path cleaned)
            else failed (unsafe_path n.path))
        else planned true)
    else planned false

unfoldable pub collect_files : List Node → Planned (List Node)
unfolding visit_node
collect_files [] = planned []
collect_files (n ∷ ns) =
    let rest = collect_files ns in
    visit_node n >>= λ is_file.
    rest >>= λ files. if is_file then planned (n ∷ files) else planned files

abbrev pub paths_of : List Node → List Bytes
paths_of [] = []
paths_of (n ∷ ns) = n.path ∷ paths_of ns

-- Some file that is not excluded matches a filter directly.
unfoldable pub direct_filter_match : Job → List Node → Bool
unfolding is_excluded_path filter_matches_path
direct_filter_match job [] = false
direct_filter_match job (n ∷ ns) =
    let rest = direct_filter_match job ns in
    if not (is_excluded_path n.path job.excludes)
      && some_filter_matches n.path job.filters job.exact_match
    then true
    else rest

-- The same where a filter that is a label of a group selects by membership instead.
unfoldable pub dataset_direct_path_match : Job → List Bytes → List Node → Bool
unfolding is_excluded_path filter_matches_path
dataset_direct_path_match job labels [] = false
dataset_direct_path_match job labels (n ∷ ns) =
    let rest = dataset_direct_path_match job labels ns in
    if is_excluded_path n.path job.excludes
    then rest
    else (if any
          (λ f.
            not (is_one_of (filter_text f) labels) && filter_matches_path n.path f job.exact_match)
          job.filters
        then true
        else rest)
