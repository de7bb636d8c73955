-- ===== src/Downloader/Plan/Match.antt =====
-- A selection with filters that `scanRepo` of pkg/hfdownloader/plan.go accepts has a file that they match.
use hfdesk.Base.{
  ℕ, suc, ◌≡◌, refl, sym, ap, ◌∙◌, subst, ◌⊎◌, inl, inr, Bool, true, false, not, ◌&&◌, ◌||◌, none,
  List, [], ◌∷◌, arith, any, Bytes, bytes_eq, bytes_eq_iff, lowered, with_slashes, Bool-cases,
}
use hfdesk.Downloader.Repo.{Job}
use hfdesk.Downloader.Filters.{filter_matches_path, is_excluded_path, some_filter_matches}
use hfdesk.Downloader.Inventory.{Node, PlanItem, planned, direct_filter_match}
use hfdesk.Downloader.Selection.{Scope, matched_filter}
use hfdesk.Downloader.Selection.Kept.{matched_filter-keeps}
use hfdesk.Downloader.Plan.{scope_of, is_filtered, plan_direct}
use hfdesk.Downloader.Plan.Cover.{has_item, Covers, plan_direct_cases, plan_direct-Covers}

lowered-with_slashes : (s : Bytes) → lowered (with_slashes s) ≡ with_slashes (lowered s)
lowered-with_slashes [] = refl
lowered-with_slashes (c ∷ s) = let rec = lowered-with_slashes s in ground (arith, rec)

-- Filters do not see the case of a path.
some_filter_matches-fold :
    (a b : Bytes) (filters : List Bytes) (exact : Bool)
    → lowered a ≡ lowered b
    → some_filter_matches a filters exact ≡ some_filter_matches b filters exact
unfolding filter_matches_path
some_filter_matches-fold a b [] exact e = refl
some_filter_matches-fold a b (f ∷ fs) exact e =
    let here = one f in
    let rest = some_filter_matches-fold a b fs exact e in ground (arith, here, rest)
  where
    same : lowered (with_slashes a) ≡ lowered (with_slashes b)
    same = lowered-with_slashes a ∙ (ap with_slashes e ∙ sym (lowered-with_slashes b))

    one : (f : Bytes) → filter_matches_path a f exact ≡ filter_matches_path b f exact
    one f = let eq = same in ground (arith, eq)

-- An item that the filters match.
abbrev pub some_item_matches : Job → List PlanItem → Bool
some_item_matches job items =
    any (λ item. some_filter_matches item.relative_path job.filters job.exact_match) items

has_item-matches :
    (job : Job) (items : List PlanItem) (path : Bytes)
    → has_item items path ≡ true
    → some_filter_matches path job.filters job.exact_match ≡ true
    → some_item_matches job items ≡ true
has_item-matches job [] path h m = absurd (ground (arith, h))
has_item-matches job (item ∷ items) path h m =
    elim (Bool-cases (bytes_eq (lowered path) (lowered item.relative_path))) [
      | inl e ↦
          let same =
            some_filter_matches-fold path item.relative_path job.filters job.exact_match
              ((bytes_eq_iff (lowered path) (lowered item.relative_path)).0 e) in
          ground (arith, same, m)
      | inr e ↦
          let rest = has_item-matches job items path (ground (arith, h, e)) m in
          ground (arith, rest)
    ]

abbrev Matches : Job → Bytes → Type 0
Matches job p =
    (is_excluded_path p job.excludes ≡ false)
    × (some_filter_matches p job.filters job.exact_match ≡ true)

covered_match :
    (s : Scope) (i : ℕ) (seen known : Bytes → Bool) (ns : List Node)
    → s.decisions ≡ none
    → ((p : Bytes) → seen p ≡ true → Matches s.job p → known p ≡ true)
    → Covers s i seen known ns
    → direct_filter_match s.job ns ≡ true
    → (p : Bytes) × (known p ≡ true)
      × (some_filter_matches p s.job.filters s.job.exact_match ≡ true)
unfolding direct_filter_match
covered_match s i seen known [] none_ met h d = absurd (ground (arith, d))
covered_match s i seen known (n ∷ ns) none_ met h d =
    elim (Bool-cases (
      not (is_excluded_path n.path s.job.excludes)
      && some_filter_matches n.path s.job.filters s.job.exact_match)) [
        | inl e ↦
            let m : Matches s.job n.path = (ground (arith, e), ground (arith, e)) in
            (n.path, here m h.0, m.1)
        | inr e ↦
            covered_match s (suc i) (λ p. bytes_eq p n.path || seen p) known ns none_ (later e) h.1
              (ground (arith, d, e))
      ]
  where
    here :
        Matches s.job n.path
        → (known n.path ≡ true) ⊎ (seen n.path ≡ true) ⊎ (matched_filter s i n [] ≡ none)
        → known n.path ≡ true
    here m (inl k) = k
    here m (inr (inl e)) = met n.path e m
    here m (inr (inr left_out)) =
        absurd (cc (sym left_out ∙ matched_filter-keeps s i n [] none_ m.0 m.1))

    later :
        (not (is_excluded_path n.path s.job.excludes)
            && some_filter_matches n.path s.job.filters s.job.exact_match)
          ≡ false
        → (p : Bytes) → (bytes_eq p n.path || seen p) ≡ true
        → Matches s.job p
        → known p ≡ true
    later off p e m = elim (Bool-cases (bytes_eq p n.path)) [
      | inl same ↦
          let at : Matches s.job n.path =
            subst (Matches s.job) ((bytes_eq_iff p n.path).0 same) m in
          absurd (ground (arith, off, at.0, at.1))
      | inr other ↦ met p (ground (arith, e, other)) m
    ]

-- Where filters alone decide and there are filters, a plan has an item that one of them matches: files
-- that are kept as companions never make up a plan by themselves.
pub plan_direct-matches :
    (job : Job) (endpoint revision : Bytes) (files : List Node) {items : List PlanItem}
    → is_filtered job ≡ true
    → plan_direct job endpoint revision files ≡ planned items
    → some_item_matches job items ≡ true
unfolding scope_of
plan_direct-matches job endpoint revision files {items} filters h =
    let direct = (plan_direct_cases job endpoint revision files h).1 in
    let (path, planned_, matches) =
      covered_match (scope_of job endpoint revision files none) 0 (λ p. false) (has_item items)
        files refl (λ p e m. absurd (cc e)) (plan_direct-Covers job endpoint revision files h)
        (ground (arith, direct, filters)) in
    has_item-matches job items path planned_ matches
