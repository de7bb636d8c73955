-- ===== src/Downloader/Plan.antt =====
-- `scanRepo` and `PlanRepo` of pkg/hfdownloader/plan.go, for a caller that does not cancel. The decision
-- on the groups of a dataset is an argument.
pub mod Rounds
pub mod Items
pub mod Cover
pub mod Match
mod Examples
use hfdesk.Base.{
  ℕ, suc, Bool, true, false, not, ◌&&◌, Option, none, some, List, [], ◌∷◌, if◌then◌else◌, Bytes,
  bytes_eq, codes, lowered, is_one_of, map,
}
use hfdesk.DatasetSelection.{recognize}
use hfdesk.Downloader.Repo.{Job, validate, unsafe_blob_name, safe_commit_name, is_empty}
use hfdesk.Downloader.Kinds.{is_gguf_filter_download_with_excludes}
use hfdesk.Downloader.Inventory.{
  Node, PlanItem, Plan, PlanError, bad_sha256, no_filter_match, dataset_error, invalid_job, Planned,
  planned, failed, ◌>>=◌, ◌>>◌, collect_files, paths_of, direct_filter_match,
  dataset_direct_path_match,
}
use hfdesk.Downloader.Selection.{Evaluation, Scope, matched_filter, item_of, sha_of}

-- The loop over the files, from the paths seen and their lower-case forms; it gives the items that it
-- appends.
unfoldable pub plan_items :
    Scope → ℕ → List Bytes → List Bytes → List Node → Planned (List PlanItem)
unfolding matched_filter item_of unsafe_blob_name sha_of
plan_items s i seen seen_lower [] = planned []
plan_items s i seen seen_lower (n ∷ ns) =
    let low = lowered n.path in
    let skipped = plan_items s (suc i) (n.path ∷ seen) seen_lower ns in
    let again = plan_items s (suc i) seen seen_lower ns in
    let next = plan_items s (suc i) (n.path ∷ seen) (low ∷ seen_lower) ns in
    if is_one_of n.path seen then again else elim (matched_filter s i n seen_lower) [
      | none ↦ skipped
      | some f ↦
          if unsafe_blob_name (sha_of n)
          then failed (bad_sha256 n.path (sha_of n))
          else (if is_one_of low seen_lower
              then skipped
              else (next >>= λ items. planned (item_of s i n f ∷ items)))
    ]

-- What the revision lookup answers: a commit, or that it failed.
unfoldable pub commit_of : Job → Option Bytes → Bytes × Bool
unfolding safe_commit_name
commit_of job none = (job.revision, false)
commit_of job (some sha) = (if bytes_eq sha [] then job.revision else sha, safe_commit_name sha)

abbrev pub is_filtered : Job → Bool
is_filtered job = not (is_empty job.filters)

abbrev pub when : Bool → PlanError → Planned (Unit {0})
when true e = failed e
when false e = planned tt

unfoldable pub scope_of : Job → Bytes → Bytes → List Node → Option Evaluation → Scope
unfolding recognize is_gguf_filter_download_with_excludes
scope_of job endpoint revision files decisions = record {
  job = job;
  endpoint = endpoint;
  revision_read = revision;
  gguf_mode =
      is_gguf_filter_download_with_excludes (map lowered (paths_of files)) job.filters job.excludes
        job.exact_match;
  evidence = (recognize (paths_of files)).evidence;
  decisions = decisions;
}

-- With a dataset selection the guards come before the loop.
unfoldable pub plan_dataset :
    (List Node → Planned Evaluation) → Job → Bytes → Bytes → List Node → Planned (List PlanItem)
unfolding scope_of plan_items dataset_direct_path_match
plan_dataset evaluate job endpoint revision files = do
  ev ← evaluate files
  let direct = dataset_direct_path_match job ev.recognized_labels files
  when (not direct && not (ev.recognized_group && ev.membership_match)) no_filter_match
  when (ev.recognized_group && ev.refuses) dataset_error
  plan_items (scope_of job endpoint revision files (some ev)) 0 [] [] files

-- Without one the guard on a selection that nothing matches comes behind the loop.
unfoldable pub plan_direct : Job → Bytes → Bytes → List Node → Planned (List PlanItem)
unfolding scope_of plan_items direct_filter_match
plan_direct job endpoint revision files = do
  items ← plan_items (scope_of job endpoint revision files none) 0 [] [] files
  when (is_filtered job && not (direct_filter_match job files)) no_filter_match
  planned items

unfoldable pub select_and_plan :
    (List Node → Planned Evaluation) → Job → Bytes → Bytes → List Node → Planned (List PlanItem)
unfolding plan_dataset plan_direct
select_and_plan evaluate job endpoint revision files =
    if job.is_dataset && is_filtered job
    then plan_dataset evaluate job endpoint revision files
    else plan_direct job endpoint revision files

-- The revision that the tree and the files are read at: only a branch variant is pinned to its commit.
unfoldable pub content_revision : Job → Option Bytes → Bytes
unfolding commit_of
content_revision job lookup =
    let (commit, resolved) = commit_of job lookup in
    if job.branch_variant && resolved then commit else job.revision

unfoldable pub plan_of : Job → Option Bytes → List PlanItem → Plan
unfolding commit_of
plan_of job lookup items =
    let (commit, resolved) = commit_of job lookup in
    record { items = items; commit = commit; commit_resolved = resolved }

-- `scanRepo`: the lookup answers a commit or fails, and the walk visits these nodes.
unfoldable pub scan_repo :
    (List Node → Planned Evaluation) → Job → Bytes → Option Bytes → List Node → Planned Plan
unfolding collect_files select_and_plan content_revision plan_of
scan_repo evaluate job endpoint lookup nodes = do
  files ← collect_files nodes
  items ← select_and_plan evaluate job endpoint (content_revision job lookup) files
  planned (plan_of job lookup items)

-- `PlanRepo`.
unfoldable pub plan_repo :
    (List Node → Planned Evaluation) → Job → Bytes → Option Bytes → List Node → Planned Plan
unfolding validate scan_repo
plan_repo evaluate job endpoint lookup nodes = elim (validate job) [
  | some e ↦ failed (invalid_job e)
  | none ↦
      scan_repo evaluate
        (if bytes_eq job.revision [] then record job { revision = codes "main" } else job) endpoint
        lookup nodes
]
