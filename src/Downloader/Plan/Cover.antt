-- ===== src/Downloader/Plan/Cover.antt =====
-- Which files of an inventory the plan of a repository has, where filters alone decide: `scanRepo` of
-- pkg/hfdownloader/plan.go.
use hfdesk.Base.{
  ℕ, suc, ◌≡◌, refl, sym, ◌∙◌, ◌⊎◌, inl, inr, Bool, true, false, not, ◌&&◌, ◌||◌, none, List, [],
  ◌∷◌, arith, Bytes, bytes_eq, bytes_eq_self, lowered, is_one_of,
}
use hfdesk.Downloader.Repo.{Job, is_empty}
use hfdesk.Downloader.Filters.{some_filter_matches}
use hfdesk.Downloader.Inventory.{
  Node, PlanItem, Planned, planned, failed, no_filter_match, direct_filter_match, ◌>>=◌, ◌>>◌,
}
use hfdesk.Downloader.Selection.{Scope, matched_filter, item_of}
use hfdesk.Downloader.Selection.Kept.{matched_filter-needs}
use hfdesk.Downloader.Plan.{plan_items, scope_of, is_filtered, plan_direct, when}
use hfdesk.Downloader.Plan.Rounds.{Steps, Yields-planned, plan_items_rule}

-- Every large file, and in the GGUF mode every file, is one that a filter matches.
abbrev pub AllMatched : Job → Bool → List PlanItem → Type 0
AllMatched job gguf_mode [] = Unit {0}
AllMatched job gguf_mode (item ∷ items) =
    ((item.lfs || gguf_mode) ≡ true
      → some_filter_matches item.relative_path job.filters job.exact_match ≡ true)
    × AllMatched job gguf_mode items

matched_steps :
    (s : Scope)
    → s.decisions ≡ none
    → s.job.is_dataset ≡ false
    → is_empty s.job.filters ≡ false
    → Steps s (λ i seen low ns items. AllMatched s.job s.gguf_mode items)
unfolding item_of
matched_steps s none_ model filters = record {
  done = λ i seen low. tt;
  repeated = λ i seen low n ns items e ih. ih;
  unselected = λ i seen low n ns items e ih. ih;
  same_fold = λ i seen low n ns items e ih. ih;
  added = λ i seen low n ns items f m safe fresh ih.
      ((λ payload. matched_filter-needs s i n low f none_ model filters payload m), ih);
}

-- A path is one of the items' paths, up to case.
abbrev pub has_item : List PlanItem → Bytes → Bool
has_item [] path = false
has_item (item ∷ items) path =
    bytes_eq (lowered path) (lowered item.relative_path) || has_item items path

-- Every file is planned up to case, or an earlier file has its path, or the filters leave it out.
abbrev pub Covers : Scope → ℕ → (Bytes → Bool) → (Bytes → Bool) → List Node → Type 0
Covers s i seen known [] = Unit {0}
Covers s i seen known (n ∷ ns) =
    ((known n.path ≡ true) ⊎ (seen n.path ≡ true) ⊎ (matched_filter s i n [] ≡ none))
    × Covers s (suc i) (λ p. bytes_eq p n.path || seen p) known ns

Covers-more :
    (s : Scope) (i : ℕ) (seen seen' known known' : Bytes → Bool) (ns : List Node)
    → ((p : Bytes) → seen p ≡ true → seen' p ≡ true)
    → ((p : Bytes) → known p ≡ true → known' p ≡ true)
    → Covers s i seen known ns
    → Covers s i seen' known' ns
Covers-more s i seen seen' known known' [] more further h = tt
Covers-more s i seen seen' known known' (n ∷ ns) more further h = (
  elim h.0 [
    | inl k ↦ inl (further n.path k)
    | inr r ↦ elim r [ inl e ↦ inr (inl (more n.path e)) | inr m ↦ inr (inr m) ]
  ],
  Covers-more s (suc i) _ _ known known' ns (λ p e. let up = more p in ground (arith, e)) further
      h.1,
)

no_decision_low :
    (s : Scope) (i : ℕ) (n : Node) (low : List Bytes)
    → s.decisions ≡ none
    → matched_filter s i n low ≡ matched_filter s i n []
unfolding matched_filter
no_decision_low s i n low h = ground (arith, h)

abbrev CoverState : Scope → ℕ → List Bytes → List Bytes → List Node → List PlanItem → Type 0
CoverState s i seen low ns items =
    Covers s i (λ p. is_one_of p seen) (λ p. is_one_of (lowered p) low || has_item items p) ns

cover_steps : (s : Scope) → s.decisions ≡ none → Steps s (CoverState s)
unfolding item_of
cover_steps s none_ = record {
  done = λ i seen low. tt;
  repeated = λ i seen low n ns items e ih.
      (inr (inl e), Covers-more s (suc i) _ _ _ _ ns (λ p h. ground (arith, h)) (λ p h. h) ih);
  unselected = λ i seen low n ns items e ih. (
    inr (inr (sym (no_decision_low s i n low none_) ∙ e)),
    Covers-more s (suc i) _ _ _ _ ns (λ p h. ground (arith, h)) (λ p h. h) ih,
  );
  same_fold = λ i seen low n ns items e ih. (
    inl (ground (arith, e)),
    Covers-more s (suc i) _ _ _ _ ns (λ p h. ground (arith, h)) (λ p h. h) ih,
  );
  added = λ i seen low n ns items f m safe fresh ih. (
    inl (let self = bytes_eq_self (lowered n.path) in ground (arith, self)),
    Covers-more s (suc i) _ _ _ _ ns (λ p h. ground (arith, h)) (λ p h. ground (arith, h)) ih,
  );
}

-- A plan is the outcome of the loop, and a selection with filters has a direct match.
pub plan_direct_cases :
    (job : Job) (endpoint revision : Bytes) (files : List Node) {items : List PlanItem}
    → plan_direct job endpoint revision files ≡ planned items
    → (plan_items (scope_of job endpoint revision files none) 0 [] [] files ≡ planned items)
      × ((is_filtered job && not (direct_filter_match job files)) ≡ false)
unfolding plan_direct
plan_direct_cases job endpoint revision files {items} h =
    go (plan_items (scope_of job endpoint revision files none) 0 [] [] files)
      (is_filtered job && not (direct_filter_match job files)) h
  where
    go :
        (r : Planned (List PlanItem)) (b : Bool)
        → (r >>= λ list. when b no_filter_match >> planned list) ≡ planned items
        → (r ≡ planned items) × (b ≡ false)
    go (failed e) b eq = absurd (cc eq)
    go (planned list) true eq = absurd (cc eq)
    go (planned list) false eq = (eq, refl)

-- A plan of a model with filters: every large file in it, and in the GGUF mode every file, is one that a
-- filter matches.
pub plan_direct-AllMatched :
    (job : Job) (endpoint revision : Bytes) (files : List Node) {items : List PlanItem}
    → job.is_dataset ≡ false
    → is_filtered job ≡ true
    → plan_direct job endpoint revision files ≡ planned items
    → AllMatched job (scope_of job endpoint revision files none).gguf_mode items
unfolding scope_of
plan_direct-AllMatched job endpoint revision files model filters h =
    let s = scope_of job endpoint revision files none in
    Yields-planned (AllMatched job s.gguf_mode) (plan_items s 0 [] [] files)
      (plan_items_rule s _ (matched_steps s refl model (ground (arith, filters))) 0 [] [] files)
      (plan_direct_cases job endpoint revision files h).0

-- Where filters alone decide, a plan has every file of the inventory, up to case, except those whose path
-- an earlier file has and those that the filters and excludes leave out.
pub plan_direct-Covers :
    (job : Job) (endpoint revision : Bytes) (files : List Node) {items : List PlanItem}
    → plan_direct job endpoint revision files ≡ planned items
    → Covers (scope_of job endpoint revision files none) 0 (λ p. false) (has_item items) files
unfolding scope_of
plan_direct-Covers job endpoint revision files {items} h =
    let s = scope_of job endpoint revision files none in
    Yields-planned (λ list. Covers s 0 (λ p. false) (has_item list) files)
      (plan_items s 0 [] [] files)
      (plan_items_rule s (CoverState s) (cover_steps s refl) 0 [] [] files)
      (plan_direct_cases job endpoint revision files h).0
