-- ===== src/Downloader/Plan/Examples.antt =====
-- The theorems on the planning of pkg/hfdownloader/plan.go at a small model repository.
use hfdesk.Base.{
  ◌≡◌, refl, true, false, ◌↔◌, none, some, List, [], ◌∷◌, ◌++◌, any, Bytes, bytes_eq, trim,
  cut_prefix, codes, split, bounded_somewhere, pos, ◌==◌,
}
use hfdesk.HubTree.Paths.Stack.{AllNames}
use hfdesk.Downloader.Repo.{Job, unsafe_repo_path}
use hfdesk.Downloader.Repo.Canonical.{unsafe_repo_path_iff}
use hfdesk.Downloader.Filters.{filter_matches, is_filter_delimiter}
use hfdesk.Downloader.Filters.Exact.{filter_matches-exact}
use hfdesk.Downloader.Inventory.{Node, PlanItem, Planned, planned, failed, dataset_error}
use hfdesk.Downloader.Selection.{Evaluation}
use hfdesk.Downloader.Plan.{scope_of, plan_direct, scan_repo, plan_of}
use hfdesk.Downloader.Plan.Items.{AllSound, TwinFree, scan_repo-IsGood}
use hfdesk.Downloader.Plan.Cover.{
  AllMatched, Covers, has_item, plan_direct-AllMatched, plan_direct-Covers,
}
use hfdesk.Downloader.Plan.Match.{some_item_matches, plan_direct-matches}

-- The filter has delimiters of its own.
filter_matches-exact_example :
    filter_matches (codes "model-q4-k-m.gguf") (codes "q4-k") true
    ≡ bounded_somewhere is_filter_delimiter (codes "q4-k") [] (codes "model-q4-k-m.gguf")
filter_matches-exact_example = filter_matches-exact (codes "model-q4-k-m.gguf") b'q' (codes "4-k")

unsafe_repo_path_iff_example : (unsafe_repo_path (codes "onnx/model.onnx") ≡ false) ↔ (
    (any (λ c. c == b'\\') (codes "onnx/model.onnx") ≡ false)
    × AllNames (split b'/' (codes "onnx/model.onnx")))
unsafe_repo_path_iff_example = unsafe_repo_path_iff (codes "onnx/model.onnx")

abbrev eight : Bytes → Bytes
eight s = s ++ s ++ s ++ s ++ s ++ s ++ s ++ s

abbrev digest : Bytes
digest = eight (codes "0123abCD")

abbrev plain : Bytes → Node
plain path = record { kind = codes "file"; path = path; size = pos 7; lfs = none; sha256 = [] }

abbrev large : Bytes → Node
large path = record {
  kind = codes "file";
  path = path;
  size = pos 130;
  lfs = some (record { oid = digest; size = pos 4096; sha256 = [] });
  sha256 = [];
}

abbrev files : List Node
files =
    plain (codes "README.md")
    ∷ large (codes "m-q4.safetensors")
    ∷ large (codes "M-Q4.safetensors")
    ∷ large (codes "m-q8.safetensors")
    ∷ []

abbrev job : Job
job = record {
  repo = codes "owner/m";
  is_dataset = false;
  revision = codes "main";
  branch_variant = false;
  filters = codes "q4" ∷ [];
  excludes = [];
  exact_match = true;
  append_filter_subdir = false;
  local_repo = [];
}

abbrev no_datasets : List Node → Planned Evaluation
no_datasets nodes = failed dataset_error

-- The README goes along as a companion; the twin in upper case and the other size do not.
abbrev items : List PlanItem
items =
    record {
      relative_path = codes "README.md";
      url = codes "https://huggingface.co/owner/m/raw/main/README.md";
      lfs = false;
      sha256 = [];
      size = pos 7;
      accept_ranges = false;
      subdir = [];
      destination_subdir = [];
    }
    ∷ record {
      relative_path = codes "m-q4.safetensors";
      url = codes "https://huggingface.co/owner/m/resolve/main/m-q4.safetensors";
      lfs = true;
      sha256 = eight (codes "0123abcd");
      size = pos 4096;
      accept_ranges = true;
      subdir = codes "q4";
      destination_subdir = codes "q4";
    }
    ∷ []

planned_items : plan_direct job [] (codes "main") files ≡ planned items
unfolding plan_direct bytes_eq trim cut_prefix split
planned_items = refl

planned_repo : scan_repo no_datasets job [] none files ≡ planned (plan_of job none items)
unfolding scan_repo plan_of bytes_eq trim cut_prefix split
planned_repo = refl

scan_repo-IsGood_example : AllSound job items × TwinFree [] items
unfolding plan_of
scan_repo-IsGood_example = scan_repo-IsGood no_datasets job [] none files planned_repo

plan_direct-AllMatched_example :
    AllMatched job (scope_of job [] (codes "main") files none).gguf_mode items
plan_direct-AllMatched_example =
    plan_direct-AllMatched job [] (codes "main") files refl refl planned_items

plan_direct-Covers_example :
    Covers (scope_of job [] (codes "main") files none) 0 (λ p. false) (has_item items) files
plan_direct-Covers_example = plan_direct-Covers job [] (codes "main") files planned_items

plan_direct-matches_example : some_item_matches job items ≡ true
plan_direct-matches_example = plan_direct-matches job [] (codes "main") files refl planned_items
