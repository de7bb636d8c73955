-- ===== src/HubTree/Walk/Payments.antt =====
-- What the calls of a walk in internal/hubtree/hubtree.go pay out of its request budget, and the fetch.
use hfdesk.Base.{
  ℕ, zero, suc, ◌+◌, ◌≤◌, ◌≡◌, refl, ◌∙◌, Bool, true, false, ◌∷◌, arith, length, Bytes, if-rule,
  ◌==◌,
}
use hfdesk.HubTree.Wait.{retryable_status}
use hfdesk.HubTree.Walk.{
  UrlLibrary, World, Outcome, replied, bad_request, transport_error, cancelled_request, WalkState,
  WalkError, Result, failed, returned, and_then, Attempt, ended, again, Reply, out_of_fuel,
}
use hfdesk.HubTree.Walk.Fetch.{
  last_attempt, go_on, waited, settle, attempt, fetch_from, fetch, request,
}

-- The requests paid for and the budget that is left.
abbrev pub funds : WalkState → ℕ
funds st = length st.sent + st.budget

abbrev pub is_stuck : WalkError → Bool
is_stuck out_of_fuel = true
is_stuck _ = false

-- A call keeps the funds, does not run out of fuel, and has paid for `k` requests where it returns.
unfoldable pub Pays : {A : Type 0} → ℕ → WalkState → Result A → Type 0
Pays k st (failed e st') = (funds st' ≡ funds st) × (is_stuck e ≡ false)
Pays k st (returned a st') = (funds st' ≡ funds st) × (st'.budget + k ≤ st.budget)

pub Pays-weaken :
    {A : Type 0} (k : ℕ) (st : WalkState) (r : Result A) → Pays (suc k) st r → Pays k st r
unfolding Pays
Pays-weaken k st (failed e st') h = h
Pays-weaken k st (returned a st') h = (h.0, omega arith)

pub Pays-trans :
    {A : Type 0} (j k : ℕ) (st st' : WalkState) (r : Result A)
    → funds st' ≡ funds st
    → st'.budget + j ≤ st.budget
    → Pays k st' r
    → Pays (j + k) st r
unfolding Pays
Pays-trans j k st st' (failed e st'') same less h = (h.0 ∙ same, h.1)
Pays-trans j k st st' (returned a st'') same less h = (h.0 ∙ same, omega arith)

-- What a call and the code behind it pay.
pub Pays-and_then :
    {A B : Type 0} (j k : ℕ) (st : WalkState) (r : Result A) (f : A → WalkState → Result B)
    → Pays j st r
    → ((a : A) (st' : WalkState)
        → funds st' ≡ funds st
        → st'.budget + j ≤ st.budget
        → Pays k st' (f a st'))
    → Pays (j + k) st (and_then r f)
unfolding Pays and_then
Pays-and_then j k st (failed e st') f h next = h
Pays-and_then j k st (returned a st') f h next =
    Pays-trans j k st st' (f a st') h.0 h.1 (next a st' h.0 h.1)

module _ (lib : UrlLibrary) (w : World) where
  AttemptCost : WalkState → Attempt → Type 0
  unfolding Pays
  AttemptCost st (ended r) = Pays 1 st r
  AttemptCost st (again wait last st') =
      Pays 1 st last × (funds st' ≡ funds st) × (st'.budget + 1 ≤ st.budget)

  settle-AttemptCost :
      (st st' : WalkState) (u : Bytes) (n : ℕ) (o : Outcome)
      → funds st' ≡ funds st
      → st'.budget + 1 ≤ st.budget
      → AttemptCost st (settle lib w st' u n o)
  unfolding settle Pays AttemptCost
  settle-AttemptCost st st' u n bad_request same less = (same, refl)
  settle-AttemptCost st st' u n cancelled_request same less = (same, refl)
  settle-AttemptCost st st' u n transport_error same less = ((same, refl), same, less)
  settle-AttemptCost st st' u n (replied reply) same less =
      if-rule (AttemptCost st) (retryable_status reply.head.status_code) _ _
        (λ _. ((same, less), same, less)) (λ _. (same, less))

  attempt-AttemptCost : (st : WalkState) (u : Bytes) (n : ℕ) → AttemptCost st (attempt lib w st u n)
  unfolding attempt request Pays AttemptCost
  attempt-AttemptCost st u n =
      if-rule (AttemptCost st) (st.budget == 0) _ _ (λ _. (refl, refl))
        (λ e.
          settle-AttemptCost st (request lib w st u) u n (w.serve (u ∷ st.sent)) (ground arith)
            (ground arith))

  last_attempt-Pays :
      (st : WalkState) (a : Attempt) → AttemptCost st a → Pays 1 st (last_attempt lib w a)
  unfolding last_attempt AttemptCost
  last_attempt-Pays st (ended r) h = h
  last_attempt-Pays st (again wait last st') h = h.0

  go_on-Pays :
      (st : WalkState) (a : Attempt) (next : WalkState → Result Reply)
      → AttemptCost st a
      → ((st' : WalkState) → Pays 1 st' (next st'))
      → Pays 1 st (go_on lib w a next)
  unfolding go_on AttemptCost Pays
  go_on-Pays st (ended r) next h rest = h
  go_on-Pays st (again wait last st') next h rest =
      if-rule (Pays 1 st) (w.sleeps st'.sent wait) _ _
        (λ _.
          Pays-trans 1 0 st (waited lib w st' wait) (next (waited lib w st' wait)) h.1 h.2
            (Pays-weaken 0 (waited lib w st' wait) _ (rest _)))
        (λ _. (h.1, refl))

  fetch_from-Pays : (left : ℕ) (st : WalkState) (u : Bytes) → Pays 1 st (fetch_from lib w left st u)
  unfolding fetch_from
  fetch_from-Pays zero st u = last_attempt-Pays st _ (attempt-AttemptCost st u 4)
  fetch_from-Pays (suc left) st u =
      go_on-Pays st _ _ (attempt-AttemptCost st u _) (λ st'. fetch_from-Pays left st' u)

  pub fetch-Pays : (st : WalkState) (u : Bytes) → Pays 1 st (fetch lib w st u)
  unfolding fetch
  fetch-Pays st u = fetch_from-Pays 4 st u
