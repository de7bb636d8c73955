-- ===== src/Downloader/Plan/Rounds.antt =====
-- Induction on the rounds of the loop of `scanRepo` in pkg/hfdownloader/plan.go.
use hfdesk.Base.{
  ℕ, suc, ◌≡◌, refl, subst, Bool, true, false, none, some, List, [], ◌∷◌, if-rule, option-rule,
  Bytes, lowered, is_one_of,
}
use hfdesk.Downloader.Repo.{unsafe_blob_name}
use hfdesk.Downloader.Inventory.{Node, PlanItem, PlanError, Planned, planned, failed, ◌>>=◌, ◌>>◌}
use hfdesk.Downloader.Selection.{Scope, matched_filter, item_of, sha_of}
use hfdesk.Downloader.Plan.{plan_items, when}

-- What holds of a result where there is one.
abbrev pub Yields {ℓ κ} : {A : Type ℓ} → (A → Type κ) → Planned A → Type κ
Yields Q (failed e) = Unit
Yields Q (planned a) = Q a

pub Yields-planned {ℓ κ} :
    {A : Type ℓ} (Q : A → Type κ) (r : Planned A) {a : A} → Yields Q r → r ≡ planned a → Q a
Yields-planned Q r h eq = subst (Yields Q) eq h

pub bind-rule {ℓ κ μ} :
    {A : Type ℓ} {B : Type κ} (Q : B → Type μ) (r : Planned A) (f : A → Planned B)
    → ((a : A) → r ≡ planned a → Yields Q (f a))
    → Yields Q (r >>= f)
bind-rule Q (failed e) f h = tt
bind-rule Q (planned a) f h = h a refl

pub when-rule {ℓ κ} :
    {B : Type ℓ} (Q : B → Type κ) (b : Bool) (e : PlanError) (m : Planned B)
    → (b ≡ false → Yields Q m)
    → Yields Q (when b e >> m)
when-rule Q true e m h = tt
when-rule Q false e m h = h refl

module _ (s : Scope) (Q : ℕ → List Bytes → List Bytes → List Node → List PlanItem → Type 0) where
  pub record Steps : Type 0 where
    pub done : (i : ℕ) (seen low : List Bytes) → Q i seen low [] []
    pub repeated :
        (i : ℕ) (seen low : List Bytes) (n : Node) (ns : List Node) (items : List PlanItem)
        → is_one_of n.path seen ≡ true
        → Q (suc i) seen low ns items
        → Q i seen low (n ∷ ns) items
    pub unselected :
        (i : ℕ) (seen low : List Bytes) (n : Node) (ns : List Node) (items : List PlanItem)
        → matched_filter s i n low ≡ none
        → Q (suc i) (n.path ∷ seen) low ns items
        → Q i seen low (n ∷ ns) items
    pub same_fold :
        (i : ℕ) (seen low : List Bytes) (n : Node) (ns : List Node) (items : List PlanItem)
        → is_one_of (lowered n.path) low ≡ true
        → Q (suc i) (n.path ∷ seen) low ns items
        → Q i seen low (n ∷ ns) items
    pub added :
        (i : ℕ) (seen low : List Bytes) (n : Node) (ns : List Node) (items : List PlanItem)
        (f : Bytes)
        → matched_filter s i n low ≡ some f
        → unsafe_blob_name (sha_of n) ≡ false
        → is_one_of (lowered n.path) low ≡ false
        → Q (suc i) (n.path ∷ seen) (lowered n.path ∷ low) ns items
        → Q i seen low (n ∷ ns) (item_of s i n f ∷ items)

  Yields-map :
      (Q₁ Q₂ : List PlanItem → Type 0) (item : PlanItem) (r : Planned (List PlanItem))
      → ((items : List PlanItem) → Q₁ items → Q₂ (item ∷ items))
      → Yields Q₁ r
      → Yields Q₂ (r >>= λ items. planned (item ∷ items))
  Yields-map Q₁ Q₂ item (failed e) step h = tt
  Yields-map Q₁ Q₂ item (planned items) step h = step items h

  Yields-weaken :
      (Q₁ Q₂ : List PlanItem → Type 0) (r : Planned (List PlanItem))
      → ((items : List PlanItem) → Q₁ items → Q₂ items)
      → Yields Q₁ r
      → Yields Q₂ r
  Yields-weaken Q₁ Q₂ (failed e) step h = tt
  Yields-weaken Q₁ Q₂ (planned items) step h = step items h

  -- What the rounds keep holds of the items of a loop that comes to its end.
  pub plan_items_rule :
      (steps : Steps) (i : ℕ) (seen low : List Bytes) (ns : List Node)
      → Yields (Q i seen low ns) (plan_items s i seen low ns)
  unfolding plan_items
  plan_items_rule steps i seen low [] = steps.done i seen low
  plan_items_rule steps i seen low (n ∷ ns) =
      if-rule (Yields (Q i seen low (n ∷ ns))) (is_one_of n.path seen) _ _
        (λ e.
          Yields-weaken (Q (suc i) seen low ns) _ (plan_items s (suc i) seen low ns)
            (λ items. steps.repeated i seen low n ns items e)
            (plan_items_rule steps (suc i) seen low ns))
        (λ _.
          option-rule (Yields (Q i seen low (n ∷ ns))) (matched_filter s i n low) _ _
            (λ e.
              skip (λ items. steps.unselected i seen low n ns items e)
                (plan_items_rule steps (suc i) (n.path ∷ seen) low ns))
            (λ f e.
              if-rule (Yields (Q i seen low (n ∷ ns))) (unsafe_blob_name (sha_of n)) _ _ (λ _. tt)
                (λ safe.
                  if-rule (Yields (Q i seen low (n ∷ ns))) (is_one_of (lowered n.path) low) _ _
                    (λ d.
                      skip (λ items. steps.same_fold i seen low n ns items d)
                        (plan_items_rule steps (suc i) (n.path ∷ seen) low ns))
                    (λ fresh.
                      Yields-map (Q (suc i) (n.path ∷ seen) (lowered n.path ∷ low) ns) _
                        (item_of s i n f)
                        (plan_items s (suc i) (n.path ∷ seen) (lowered n.path ∷ low) ns)
                        (λ items. steps.added i seen low n ns items f e safe fresh)
                        (plan_items_rule steps (suc i) (n.path ∷ seen) (lowered n.path ∷ low)
                          ns)))))
    where
      skip :
          ((items : List PlanItem)
            → Q (suc i) (n.path ∷ seen) low ns items
            → Q i seen low (n ∷ ns) items)
          → Yields (Q (suc i) (n.path ∷ seen) low ns) (plan_items s (suc i) (n.path ∷ seen) low ns)
          → Yields (Q i seen low (n ∷ ns)) (plan_items s (suc i) (n.path ∷ seen) low ns)
      skip step rest =
          Yields-weaken (Q (suc i) (n.path ∷ seen) low ns) (Q i seen low (n ∷ ns)) _ step rest
