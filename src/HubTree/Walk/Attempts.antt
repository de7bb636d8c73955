-- ===== src/HubTree/Walk/Attempts.antt =====
-- What one fetch of a walk sends, and how long it waits.
use hfdesk.Base.{
  ℕ, zero, suc, ◌≤◌, ◌≡◌, refl, ap, ◌∙◌, sym, append_assoc, length-append, List, [], ◌∷◌, ◌++◌,
  arith, if-rule, replicate, length, Bytes, ◌==◌, Option,
}
use hfdesk.Net.{Response}
use hfdesk.HubTree.Wait.{max_retry_wait, retryable_status, retry_wait, backoff_for}
use hfdesk.HubTree.Walk.{
  UrlLibrary, World, WalkState, Result, Reply, replied, bad_request, transport_error,
  cancelled_request, Outcome, Attempt, ended, again,
}
use hfdesk.HubTree.Walk.Fetch.{
  settle, attempt, go_on, last_attempt, fetch_from, fetch, request, waited,
}
use hfdesk.HubTree.Walk.Budget.{end_of}

abbrev pub AllAtMost : ℕ → List ℕ → Type 0
AllAtMost bound [] = Unit {0}
AllAtMost bound (d ∷ ds) = (d ≤ bound) × AllAtMost bound ds

-- What a walk knows of its directories.
abbrev pub marks : WalkState → List Bytes × List Bytes
marks st = (st.visited, st.entered)

-- From one state to another: at most `n` requests, all for `u`, and fewer waits than requests, each
-- of at most five minutes.
pub record Tries (n : ℕ) (u : Bytes) (st st' : WalkState) : Type 0 where
  pub requests : ℕ
  pub pauses : List ℕ
  pub enough : requests ≤ n
  pub sent_eq : st'.sent ≡ replicate requests u ++ st.sent
  pub waits_eq : st'.waits ≡ pauses ++ st.waits
  pub short : AllAtMost max_retry_wait pauses
  pub between : length pauses ≤ requests
  pub visited_eq : marks st' ≡ marks st

Tries-weaken : (n : ℕ) (u : Bytes) (st st' : WalkState) → Tries 1 u st st' → Tries (suc n) u st st'
Tries-weaken n u st st' t = record {
  requests = t.requests;
  pauses = t.pauses;
  enough = let le = t.enough in omega arith;
  sent_eq = t.sent_eq;
  waits_eq = t.waits_eq;
  short = t.short;
  between = t.between;
  visited_eq = t.visited_eq;
}

AllAtMost-append :
    (b : ℕ) (xs ys : List ℕ) → AllAtMost b xs → AllAtMost b ys → AllAtMost b (xs ++ ys)
AllAtMost-append b [] ys h k = k
AllAtMost-append b (x ∷ xs) ys h k = (h.0, AllAtMost-append b xs ys h.1 k)

replicate-append :
    (k : ℕ) (u : Bytes) (rest : List Bytes)
    → replicate k u ++ u ∷ rest ≡ u ∷ (replicate k u ++ rest)
replicate-append zero u rest = refl
replicate-append (suc k) u rest = ap (λ t. u ∷ t) (replicate-append k u rest)

Tries-self : (n : ℕ) (u : Bytes) (st : WalkState) → Tries n u st st
Tries-self n u st = record {
  requests = 0;
  pauses = [];
  enough = omega arith;
  sent_eq = refl;
  waits_eq = refl;
  short = tt;
  between = omega arith;
  visited_eq = refl;
}

-- A request and a wait before further tries.
Tries-after :
    (n wait : ℕ) (u : Bytes) (st mid st' : WalkState)
    → mid.sent ≡ u ∷ st.sent
    → mid.waits ≡ wait ∷ st.waits
    → marks mid ≡ marks st
    → wait ≤ max_retry_wait
    → Tries n u mid st'
    → Tries (suc n) u st st'
Tries-after n wait u st mid st' s v vis le t = record {
  requests = suc t.requests;
  pauses = t.pauses ++ wait ∷ [];
  enough = let e = t.enough in omega arith;
  sent_eq =
      t.sent_eq ∙ ap (λ r. replicate t.requests u ++ r) s ∙ replicate-append t.requests u st.sent;
  waits_eq =
      t.waits_eq ∙ ap (λ r. t.pauses ++ r) v ∙ sym (append_assoc t.pauses (wait ∷ []) st.waits);
  short = AllAtMost-append max_retry_wait t.pauses (wait ∷ []) t.short (le, tt);
  between = let e = t.between in let f = length-append t.pauses (wait ∷ []) in omega arith;
  visited_eq = t.visited_eq ∙ vis;
}

module _ (lib : UrlLibrary) (w : World) where
  backoff_le : (n : ℕ) → backoff_for n ≤ max_retry_wait
  unfolding backoff_for
  backoff_le n = ground arith

  retry_wait_le :
      (r : Option Response) (local now : ℕ) → retry_wait w.parse_time r local now ≤ max_retry_wait
  unfolding retry_wait
  retry_wait_le r local now = ground arith

  -- An attempt sends one request, or none without a budget.
  IsAttempt : Bytes → WalkState → Attempt → Type 0
  IsAttempt u st (ended r) = Tries 1 u st (end_of r)
  IsAttempt u st (again wait last st') =
      Tries 1 u st (end_of last)
      × (st'.sent ≡ u ∷ st.sent)
      × (st'.waits ≡ st.waits)
      × (marks st' ≡ marks st)
      × (wait ≤ max_retry_wait)

  one_sent : (u : Bytes) (st : WalkState) → Tries 1 u st (request lib w st u)
  unfolding request
  one_sent u st = record {
    requests = 1;
    pauses = [];
    enough = omega arith;
    sent_eq = refl;
    waits_eq = refl;
    short = tt;
    between = omega arith;
    visited_eq = refl;
  }

  settle-IsAttempt :
      (st : WalkState) (u : Bytes) (n : ℕ) (o : Outcome)
      → IsAttempt u st (settle lib w (request lib w st u) u n o)
  unfolding settle IsAttempt request
  settle-IsAttempt st u n bad_request = one_sent u st
  settle-IsAttempt st u n cancelled_request = one_sent u st
  settle-IsAttempt st u n transport_error = (one_sent u st, refl, refl, refl, backoff_le n)
  settle-IsAttempt st u n (replied reply) =
      if-rule (IsAttempt u st) (retryable_status reply.head.status_code) _ _
        (λ _. (one_sent u st, refl, refl, refl, retry_wait_le _ _ _)) (λ _. one_sent u st)

  attempt-IsAttempt : (st : WalkState) (u : Bytes) (n : ℕ) → IsAttempt u st (attempt lib w st u n)
  unfolding attempt IsAttempt
  attempt-IsAttempt st u n =
      if-rule (IsAttempt u st) (st.budget == 0) _ _ (λ _. Tries-self 1 u st)
        (λ _. settle-IsAttempt st u n (w.serve (u ∷ st.sent)))

  last_attempt-Tries :
      (u : Bytes) (st : WalkState) (a : Attempt)
      → IsAttempt u st a
      → Tries 1 u st (end_of (last_attempt lib w a))
  unfolding last_attempt IsAttempt
  last_attempt-Tries u st (ended r) h = h
  last_attempt-Tries u st (again wait last st') h = h.0

  go_on-Tries :
      (n : ℕ) (u : Bytes) (st : WalkState) (a : Attempt) (next : WalkState → Result Reply)
      → IsAttempt u st a
      → ((s : WalkState) → Tries n u s (end_of (next s)))
      → Tries (suc n) u st (end_of (go_on lib w a next))
  unfolding go_on IsAttempt
  go_on-Tries n u st (ended r) next h rest = Tries-weaken n u st (end_of r) h
  go_on-Tries n u st (again wait last st') next h rest =
      if-rule (λ (r : Result Reply). Tries (suc n) u st (end_of r)) (w.sleeps st'.sent wait) _ _
        (λ _.
          Tries-after n wait u st (waited lib w st' wait) (end_of (next (waited lib w st' wait)))
            h.1 (ap (λ t. wait ∷ t) h.2) h.3 h.4 (rest (waited lib w st' wait)))
        (λ _.
          Tries-after n wait u st (waited lib w st' wait) (waited lib w st' wait) h.1
            (ap (λ t. wait ∷ t) h.2) h.3 h.4 (Tries-self n u (waited lib w st' wait)))

  fetch_from-Tries :
      (left : ℕ) (st : WalkState) (u : Bytes)
      → Tries (suc left) u st (end_of (fetch_from lib w left st u))
  unfolding fetch_from
  fetch_from-Tries zero st u = last_attempt-Tries u st _ (attempt-IsAttempt st u 4)
  fetch_from-Tries (suc left) st u =
      go_on-Tries (suc left) u st _ _ (attempt-IsAttempt st u _) (λ s. fetch_from-Tries left s u)

  -- A fetch asks for its URL at most five times, and for nothing else, and it makes at most one wait
  -- per request, none longer than five minutes; it
  -- marks no directory as visited or entered.
  pub fetch-Tries : (st : WalkState) (u : Bytes) → Tries 5 u st (end_of (fetch lib w st u))
  unfolding fetch
  fetch-Tries st u = fetch_from-Tries 4 st u
