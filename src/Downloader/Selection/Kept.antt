-- ===== src/Downloader/Selection/Kept.antt =====
-- Which files `scanRepo` of pkg/hfdownloader/plan.go keeps by the filters alone.
use hfdesk.Base.{
  ℕ, ◌≡◌, refl, ◌∙◌, Bool, true, false, not, ◌&&◌, ◌||◌, none, some, List, [], ◌∷◌, arith, ltb,
  if◌then◌else◌, length, Bytes, bytes_eq, lowered, trim, path_base,
}
use hfdesk.Downloader.Repo.{is_empty}
use hfdesk.Downloader.Filters.{
  filter_matches_path, is_excluded_path, is_gguf_file_path, gguf_path_selected, some_filter_matches,
}
use hfdesk.Downloader.Inventory.{Node}
use hfdesk.Downloader.Selection.{Scope, longest_filter, is_lfs, filtered, matched_filter}

filter_matches_path-nil : (rel : Bytes) (exact : Bool) → filter_matches_path rel [] exact ≡ false
unfolding filter_matches_path trim bytes_eq
filter_matches_path-nil rel exact = ground arith

longest-next :
    (rel : Bytes) (exact : Bool) (best f : Bytes)
    → bytes_eq
        (if filter_matches_path rel f exact && ltb (length best) (length f) then f else best)
        []
      ≡ (bytes_eq best [] && not (filter_matches_path rel f exact))
unfolding bytes_eq
longest-next rel exact [] [] =
    let no_match = filter_matches_path-nil rel exact in ground (arith, no_match)
longest-next rel exact [] (d ∷ t) = ground arith
longest-next rel exact (c ∷ best) [] =
    let no_match = filter_matches_path-nil rel exact in ground (arith, no_match)
longest-next rel exact (c ∷ best) (d ∷ t) = ground arith

-- The longest filter is empty exactly if none matches.
longest_filter-empty :
    (rel : Bytes) (exact : Bool) (best : Bytes) (fs : List Bytes)
    → bytes_eq (longest_filter rel exact best fs) []
      ≡ (bytes_eq best [] && not (some_filter_matches rel fs exact))
unfolding longest_filter
longest_filter-empty rel exact best [] = ground arith
longest_filter-empty rel exact best (f ∷ fs) =
    let here = longest-next rel exact best f in
    let rest =
      longest_filter-empty rel exact
        (if filter_matches_path rel f exact && ltb (length best) (length f) then f else best) fs in
    rest ∙ ground (arith, here)

gguf_path_selected-matched :
    (rel : Bytes) (filters excludes : List Bytes) (exact : Bool)
    → is_gguf_file_path (lowered (path_base rel)) ≡ true
    → is_excluded_path rel excludes ≡ false
    → some_filter_matches rel filters exact ≡ true
    → gguf_path_selected rel filters excludes exact ≡ true
unfolding gguf_path_selected
gguf_path_selected-matched rel [] excludes exact g k m = absurd (ground (arith, m))
gguf_path_selected-matched rel (f ∷ fs) excludes exact g k m = ground (arith, g, k, m)

-- A file that a filter matches and no exclude takes back is kept, by the longest such filter.
pub matched_filter-keeps :
    (s : Scope) (i : ℕ) (n : Node) (low : List Bytes)
    → s.decisions ≡ none
    → is_excluded_path n.path s.job.excludes ≡ false
    → some_filter_matches n.path s.job.filters s.job.exact_match ≡ true
    → matched_filter s i n low ≡ some (longest_filter n.path s.job.exact_match [] s.job.filters)
unfolding matched_filter filtered bytes_eq
matched_filter-keeps s i n low none_ kept match =
    let longest = longest_filter-empty n.path s.job.exact_match [] s.job.filters in
    let selected =
      gguf_path_selected-matched n.path s.job.filters s.job.excludes s.job.exact_match in
    let some_filters : is_empty s.job.filters ≡ false = filled s.job.filters match in
    ground (arith, longest, selected, kept, match, none_, some_filters)
  where
    filled :
        (fs : List Bytes)
        → some_filter_matches n.path fs s.job.exact_match ≡ true
        → is_empty fs ≡ false
    filled [] m = ground (arith, m)
    filled (f ∷ fs) m = refl

-- With filters, what is kept of a model's large files, and of all its files in the GGUF mode, is what a
-- filter matches.
pub matched_filter-needs :
    (s : Scope) (i : ℕ) (n : Node) (low : List Bytes) (f : Bytes)
    → s.decisions ≡ none
    → s.job.is_dataset ≡ false
    → is_empty s.job.filters ≡ false
    → (is_lfs n || s.gguf_mode) ≡ true
    → matched_filter s i n low ≡ some f
    → some_filter_matches n.path s.job.filters s.job.exact_match ≡ true
unfolding matched_filter filtered bytes_eq
matched_filter-needs s i n low f none_ model filters payload m =
    let longest = longest_filter-empty n.path s.job.exact_match [] s.job.filters in
    ground (arith, longest, none_, model, filters, payload, m)
