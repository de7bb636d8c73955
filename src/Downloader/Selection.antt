-- ===== src/Downloader/Selection.antt =====
-- `scanRepo` of pkg/hfdownloader/plan.go for one file: whether it goes into the plan, and as what item.
pub mod Kept
use hfdesk.Base.{
  ℕ, Bool, true, false, not, ◌&&◌, ◌||◌, Option, none, some, List, [], ◌∷◌, ◌==◌, ltb,
  if◌then◌else◌, length, get_or, Bytes, bytes_eq, lowered, path_base, ℤ, pos, less, is_one_of,
}
use hfdesk.DatasetSelection.{Evidence, data_role, companion_role}
use hfdesk.Downloader.Repo.{Job, raw_url, lfs_url, is_empty}
use hfdesk.Downloader.Filters.{
  filter_matches_path, filter_attribution, is_excluded_path, is_gguf_file_path, gguf_path_selected,
  some_filter_matches,
}
use hfdesk.Downloader.Kinds.{is_recognized_dataset_metadata_path}
use hfdesk.Downloader.Inventory.{Node, PlanItem}

-- The input has definite evidence for being data.
unfoldable pub has_data_role : List Evidence → ℕ → Bool
has_data_role [] i = false
has_data_role (e ∷ es) i =
    let rest = has_data_role es i in
    elim e.definite_role [
      | none ↦ rest
      | some role ↦ elim role [
        | data_role ↦ if e.input_index == i then true else rest
        | companion_role ↦ rest
      ]
    ]

-- `datasetDecisionRecord`, as far as the plan reads it.
pub record DecisionRecord : Type 0 where
  pub eligible : Bool
  pub selected : Bool
  pub subdir : Bytes

-- What the dataset selection says of one inventory and its filters: the labels it recognizes, whether
-- a filter is one of them, the records of the world it evaluates, whether a record selects data of a
-- group, and whether it refuses an ambiguous selection.
pub record Evaluation : Type 0 where
  pub recognized_labels : List Bytes
  pub recognized_group : Bool
  pub decisions : List DecisionRecord
  pub membership_match : Bool
  pub refuses : Bool

-- What the planning loop knows of the whole inventory.
pub record Scope : Type 0 where
  pub job : Job
  pub endpoint : Bytes
  pub revision_read : Bytes
  pub gguf_mode : Bool
  pub evidence : List Evidence
  pub decisions : Option Evaluation

-- The longest filter that matches, the first of its length.
unfoldable pub longest_filter : Bytes → Bool → Bytes → List Bytes → Bytes
unfolding filter_matches_path
longest_filter rel exact best [] = best
longest_filter rel exact best (f ∷ fs) =
    longest_filter rel exact
      (if filter_matches_path rel f exact && ltb (length best) (length f) then f else best) fs

abbrev pub is_lfs : Node → Bool
is_lfs n = elim n.lfs [ none ↦ false | some _ ↦ true ]

abbrev no_record : DecisionRecord
no_record = record { eligible = false; selected = false; subdir = [] }

-- A dataset selection decides: the record of its world, and what the GGUF mode takes back.
unfoldable pub decided_filter : Scope → Evaluation → ℕ → Node → List Bytes → Option Bytes
unfolding is_gguf_file_path filter_matches_path
decided_filter s ev i n seen_lower =
    let r = get_or ev.decisions i no_record in
    if not r.selected && not (is_one_of (lowered n.path) seen_lower && r.eligible)
    then none
    else (if (not ev.recognized_group && s.gguf_mode)
          && (not (is_gguf_file_path (lowered n.path))
              && not (some_filter_matches n.path s.job.filters s.job.exact_match))
        then none
        else some r.subdir)

-- Filters without a dataset selection decide.
unfoldable pub filtered : Scope → ℕ → Node → Option Bytes
unfolding is_gguf_file_path gguf_path_selected longest_filter is_recognized_dataset_metadata_path
    has_data_role path_base
filtered s i n =
    let job = s.job in
    let longest = longest_filter n.path job.exact_match [] job.filters in
    let metadata = job.is_dataset && is_recognized_dataset_metadata_path n.path in
    if s.gguf_mode
      && (is_gguf_file_path (lowered (path_base n.path))
          && (not (is_empty job.filters)
              && not (gguf_path_selected n.path job.filters job.excludes job.exact_match)))
    then none
    else (if s.gguf_mode
        then (if bytes_eq longest [] && (is_lfs n || (not metadata || has_data_role s.evidence i))
            then none
            else some longest)
        else (if is_empty job.filters
            then some []
            else (if bytes_eq longest [] && (is_lfs n || (job.is_dataset && not metadata))
                then none
                else some longest)))

-- The filter that a file goes into the plan by, empty where it goes without one; `none` skips it.
unfoldable pub matched_filter : Scope → ℕ → Node → List Bytes → Option Bytes
unfolding decided_filter filtered is_excluded_path
matched_filter s i n seen_lower = elim s.decisions [
  | none ↦ if is_excluded_path n.path s.job.excludes then none else filtered s i n
  | some ev ↦ elim (decided_filter s ev i n seen_lower) [
    | none ↦ none
    | some f ↦ if is_excluded_path n.path s.job.excludes then none else some f
  ]
]

-- The filter that the item names: none for an ordinary file of a model.
unfoldable pub attribution : Scope → Node → Bytes → Bytes
unfolding is_gguf_file_path filter_attribution path_base
attribution s n f =
    let plain =
      not s.job.is_dataset
      && (not (is_lfs n) && not (is_gguf_file_path (lowered (path_base n.path)))) in
    filter_attribution (if plain then [] else f) s.job.exact_match

-- The digest that the node gives.
unfoldable pub sha_of : Node → Bytes
sha_of n = if not (bytes_eq n.sha256 []) then n.sha256 else elim n.lfs [
  | none ↦ []
  | some info ↦ if bytes_eq info.sha256 [] then info.oid else info.sha256
]

unfoldable pub size_of : Node → ℤ
size_of n = elim n.lfs [
  | none ↦ n.size
  | some info ↦ if less (pos 0) info.size then info.size else n.size
]

unfoldable pub item_of : Scope → ℕ → Node → Bytes → PlanItem
unfolding attribution sha_of size_of raw_url lfs_url is_gguf_file_path has_data_role path_base
item_of s i n f =
    let job = s.job in
    let matched = attribution s n f in
    let in_place =
      job.is_dataset
      && (not (is_lfs n)
          && (not (is_gguf_file_path (lowered (path_base n.path)))
              && (not s.gguf_mode || has_data_role s.evidence i))) in
    record {
      relative_path = n.path;
      url =
          if is_lfs n
          then lfs_url s.endpoint s.revision_read job n.path
          else raw_url s.endpoint s.revision_read job n.path;
      lfs = is_lfs n;
      sha256 = lowered (sha_of n);
      size = size_of n;
      accept_ranges = is_lfs n;
      subdir = matched;
      destination_subdir = if in_place then [] else matched;
    }
