-- ===== src/Downloader/Plan/Items.antt =====
-- What the items of a plan of pkg/hfdownloader/plan.go are.
use hfdesk.Base.{
  ℕ, suc, ◌≡◌, refl, ap, ◌∙◌, ◌⊎◌, inl, inr, Bool, true, false, not, ◌&&◌, ◌||◌, Option, none, some,
  List, [], ◌∷◌, arith, leb, if◌then◌else◌, if-rule, any, length, Bytes, bytes_eq, lowered,
  to_lower, is_one_of,
}
use hfdesk.Downloader.Repo.{Job, unsafe_repo_path, unsafe_blob_name, canonical_sha256, is_hex}
use hfdesk.Downloader.Filters.{is_excluded_path}
use hfdesk.Downloader.Inventory.{
  Node, PlanItem, Planned, planned, failed, visit_node, collect_files, Plan,
  dataset_direct_path_match, direct_filter_match, no_filter_match, dataset_error,
}
use hfdesk.Downloader.Selection.{Evaluation, Scope, matched_filter, item_of, sha_of}
use hfdesk.Downloader.Plan.{
  plan_items, scope_of, is_filtered, plan_dataset, plan_direct, select_and_plan, content_revision,
  plan_of, scan_repo,
}
use hfdesk.Downloader.Plan.Rounds.{
  Steps, Yields, Yields-planned, bind-rule, when-rule, plan_items_rule,
}

abbrev pub is_lower_hex : ℕ → Bool
is_lower_hex c = (leb b'0' c && leb c b'9') || (leb b'a' c && leb c b'f')

-- No digest, or 64 hexadecimal digits in lower case.
abbrev pub IsDigest : Bytes → Type 0
IsDigest sha = (sha ≡ []) ⊎ ((length sha ≡ 64) × (any (λ c. not (is_lower_hex c)) sha ≡ false))

lower_hex :
    (s : Bytes)
    → any (λ c. not (is_hex c)) s ≡ false
    → any (λ c. not (is_lower_hex c)) (lowered s) ≡ false
lower_hex [] h = refl
lower_hex (c ∷ s) h =
    let here : is_hex c ≡ true = ground (arith, h) in
    let low : is_lower_hex (to_lower c) ≡ true = ground (arith, here) in
    let rec = lower_hex s (ground (arith, h)) in ground (arith, low, rec)

length-lowered : (s : Bytes) → length (lowered s) ≡ length s
length-lowered [] = refl
length-lowered (c ∷ s) = ap suc (length-lowered s)

safe_blob-IsDigest : (sha : Bytes) → unsafe_blob_name sha ≡ false → IsDigest (lowered sha)
unfolding unsafe_blob_name canonical_sha256 bytes_eq
safe_blob-IsDigest [] h = inl refl
safe_blob-IsDigest (c ∷ s) h =
    let size : length (c ∷ s) ≡ 64 = ground (arith, h) in
    let hex : any (λ d. not (is_hex d)) (c ∷ s) ≡ false = ground (arith, h) in
    inr (length-lowered (c ∷ s) ∙ size, lower_hex (c ∷ s) hex)

matched-kept :
    (s : Scope) (i : ℕ) (n : Node) (low : List Bytes) (f : Bytes)
    → matched_filter s i n low ≡ some f
    → is_excluded_path n.path s.job.excludes ≡ false
unfolding matched_filter
matched-kept s i n low f h = ground (arith, h)

-- An item with a path that the walk accepts and no exclude takes back, and a digest that names a blob.
pub record IsSound (job : Job) (item : PlanItem) : Type 0 where
  pub accepted : unsafe_repo_path item.relative_path ≡ false
  pub kept : is_excluded_path item.relative_path job.excludes ≡ false
  pub digest : IsDigest item.sha256

abbrev pub AllSound : Job → List PlanItem → Type 0
AllSound job [] = Unit {0}
AllSound job (item ∷ items) = IsSound job item × AllSound job items

-- No two items have paths that differ in case only, and none is one of those given.
abbrev pub TwinFree : List Bytes → List PlanItem → Type 0
TwinFree low [] = Unit {0}
TwinFree low (item ∷ items) =
    (is_one_of (lowered item.relative_path) low ≡ false)
    × TwinFree (lowered item.relative_path ∷ low) items

abbrev pub AllAccepted : List Node → Type 0
AllAccepted [] = Unit {0}
AllAccepted (n ∷ ns) = (unsafe_repo_path n.path ≡ false) × AllAccepted ns

sound_steps : (s : Scope) → Steps s (λ i seen low ns items. AllAccepted ns → AllSound s.job items)
unfolding item_of
sound_steps s = record {
  done = λ i seen low h. tt;
  repeated = λ i seen low n ns items e ih h. ih h.1;
  unselected = λ i seen low n ns items e ih h. ih h.1;
  same_fold = λ i seen low n ns items e ih h. ih h.1;
  added = λ i seen low n ns items f m safe fresh ih h. (
    record {
      accepted = h.0;
      kept = matched-kept s i n low f m;
      digest = safe_blob-IsDigest (sha_of n) safe;
    },
    ih h.1,
  );
}

twin_steps : (s : Scope) → Steps s (λ i seen low ns items. TwinFree low items)
unfolding item_of
twin_steps s = record {
  done = λ i seen low. tt;
  repeated = λ i seen low n ns items e ih. ih;
  unselected = λ i seen low n ns items e ih. ih;
  same_fold = λ i seen low n ns items e ih. ih;
  added = λ i seen low n ns items f m safe fresh ih. (fresh, ih);
}

abbrev IsGood : Job → List PlanItem → Type 0
IsGood job items = AllSound job items × TwinFree [] items

pub plan_items-IsGood :
    (s : Scope) (ns : List Node) → AllAccepted ns → Yields (IsGood s.job) (plan_items s 0 [] [] ns)
plan_items-IsGood s ns h =
    both (plan_items s 0 [] [] ns) (plan_items_rule s _ (sound_steps s) 0 [] [] ns)
      (plan_items_rule s _ (twin_steps s) 0 [] [] ns)
  where
    both :
        (r : Planned (List PlanItem))
        → Yields (λ items. AllAccepted ns → AllSound s.job items) r
        → Yields (TwinFree []) r
        → Yields (IsGood s.job) r
    both (failed e) sound free = tt
    both (planned items) sound free = (sound h, free)

visit_node-accepts : (n : Node) → visit_node n ≡ planned true → unsafe_repo_path n.path ≡ false
unfolding visit_node
visit_node-accepts n h = ground (arith, h)

-- The files that the walk hands over are those with an accepted path.
pub collect_files-AllAccepted : (nodes : List Node) → Yields AllAccepted (collect_files nodes)
unfolding collect_files
collect_files-AllAccepted [] = tt
collect_files-AllAccepted (n ∷ ns) =
    let rest = collect_files-AllAccepted ns in
    bind-rule AllAccepted (visit_node n) _ (λ is_file seen.
      bind-rule AllAccepted (collect_files ns) _ (λ files got.
        let all = Yields-planned AllAccepted (collect_files ns) rest got in
        keep is_file seen files all))
  where
    keep :
        (is_file : Bool)
        → visit_node n ≡ planned is_file
        → (files : List Node) → AllAccepted files
        → Yields AllAccepted (if is_file then planned (n ∷ files) else planned files)
    keep true seen files all = (visit_node-accepts n seen, all)
    keep false seen files all = all

select_and_plan-IsGood :
    (evaluate : List Node → Planned Evaluation) (job : Job) (endpoint revision : Bytes)
    (files : List Node)
    → AllAccepted files
    → Yields (IsGood job) (select_and_plan evaluate job endpoint revision files)
unfolding select_and_plan plan_dataset plan_direct scope_of
select_and_plan-IsGood evaluate job endpoint revision files h =
    if-rule (Yields (IsGood job)) (job.is_dataset && is_filtered job) _ _
      (λ _. bind-rule (IsGood job) (evaluate files) _ (λ ev _.
        let direct = dataset_direct_path_match job ev.recognized_labels files in
        when-rule (IsGood job) (not direct && not (ev.recognized_group && ev.membership_match))
          no_filter_match _
          (λ _.
            when-rule (IsGood job) (ev.recognized_group && ev.refuses) dataset_error _
              (λ _. plan_items-IsGood (scope_of job endpoint revision files (some ev)) files h))))
      (λ _.
        let items = plan_items-IsGood (scope_of job endpoint revision files none) files h in
        bind-rule (IsGood job)
          (plan_items (scope_of job endpoint revision files none) 0 [] [] files) _
          (λ list got.
            when-rule (IsGood job) (is_filtered job && not (direct_filter_match job files))
              no_filter_match _ (λ _. Yields-planned (IsGood job) _ items got)))

-- Where planning ends with a plan, whatever the repository lists, every item has a path in canonical
-- form that no exclude matches and an empty digest or 64 hexadecimal digits in lower case, and no two
-- items have paths that differ in case only.
pub scan_repo-IsGood :
    (evaluate : List Node → Planned Evaluation) (job : Job) (endpoint : Bytes)
    (lookup : Option Bytes) (nodes : List Node) {plan : Plan}
    → scan_repo evaluate job endpoint lookup nodes ≡ planned plan
    → AllSound job plan.items × TwinFree [] plan.items
unfolding scan_repo plan_of
scan_repo-IsGood evaluate job endpoint lookup nodes {plan} h =
    Yields-planned (λ p. IsGood job p.items) (scan_repo evaluate job endpoint lookup nodes)
      (bind-rule (λ p. IsGood job p.items) (collect_files nodes) _
        (λ files got.
          let accepted = Yields-planned AllAccepted _ (collect_files-AllAccepted nodes) got in
          let good =
            select_and_plan-IsGood evaluate job endpoint (content_revision job lookup) files
              accepted in
          bind-rule (λ p. IsGood job p.items)
            (select_and_plan evaluate job endpoint (content_revision job lookup) files)
            (λ items. planned (plan_of job lookup items))
            (λ items made. Yields-planned (IsGood job) _ good made)))
      h
