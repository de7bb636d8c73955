-- ===== src/HubTree/Walk/Fetch.antt =====
-- `fetch` of internal/hubtree/hubtree.go.
use hfdesk.Base.{ℕ, zero, suc, ◌-◌, some, ◌∷◌, ◌==◌, if◌then◌else◌, Bytes}
use hfdesk.HubTree.Wait.{max_retryable_attempts, retryable_status, backoff_for, retry_wait}
use hfdesk.HubTree.Walk.{
  UrlLibrary, World, WalkState, Outcome, replied, transport_error, cancelled_request, bad_request,
  over_budget, cancelled, transport, invalid_request, Reply, Result, failed, returned, Attempt,
  ended, again,
}

module _ (lib : UrlLibrary) (w : World) where
  -- One more request in the history.
  unfoldable pub request : WalkState → Bytes → WalkState
  request st u = record st { budget = st.budget - 1; sent = u ∷ st.sent }

  abbrev pub waited : WalkState → ℕ → WalkState
  waited st d = record st { waits = d ∷ st.waits }

  -- What an attempt makes of the outcome of its request.
  unfoldable pub settle : WalkState → Bytes → ℕ → Outcome → Attempt
  settle st u n bad_request = ended (failed (invalid_request u) st)
  settle st u n cancelled_request = ended (failed cancelled st)
  settle st u n transport_error = again (backoff_for n) (failed transport st) st
  settle st u n (replied reply) =
      if retryable_status reply.head.status_code
      then again (retry_wait w.parse_time (some reply.head) (backoff_for n) (w.clock st.sent))
          (returned reply st) st
      else ended (returned reply st)

  unfoldable pub attempt : WalkState → Bytes → ℕ → Attempt
  unfolding request settle
  attempt st u n =
      if st.budget == 0
      then ended (failed over_budget st)
      else settle (request st u) u n (w.serve (u ∷ st.sent))

  -- The wait before the next attempt.
  unfoldable pub go_on : Attempt → (WalkState → Result Reply) → Result Reply
  go_on (ended r) next = r
  go_on (again wait last st) next =
      if w.sleeps st.sent wait then next (waited st wait) else failed cancelled (waited st wait)

  unfoldable pub last_attempt : Attempt → Result Reply
  last_attempt (ended r) = r
  last_attempt (again wait last st) = last

  -- The retry loop, with the attempts that are left behind this one.
  unfoldable pub fetch_from : ℕ → WalkState → Bytes → Result Reply
  unfolding attempt go_on last_attempt
  fetch_from zero st u = last_attempt (attempt st u (max_retryable_attempts - 1))
  fetch_from (suc left) st u =
      go_on (attempt st u (max_retryable_attempts - suc (suc left))) (λ st'. fetch_from left st' u)

  unfoldable pub fetch : WalkState → Bytes → Result Reply
  unfolding fetch_from
  fetch st u = fetch_from (max_retryable_attempts - 1) st u
