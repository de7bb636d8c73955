-- ===== src/Downloader/Retry/Bounds.antt =====
-- What the retry policy of pkg/hfdownloader/retry.go guarantees.
use hfdesk.Base.{
  ℕ, ◌*◌, ◌≤◌, ◌<◌, ◌≡◌, ◌⊎◌, inl, inr, true, false, ◌||◌, Option, some, arith, Bytes, ℤ, pos,
  pos_part, less, ◌≤ℤ◌, Bool-cases, if◌then◌else◌, ◌&&◌,
}
use hfdesk.Net.{Response, max_duration}
use hfdesk.Downloader.Retry.{
  seconds_to_duration, retry_after_from_response, next_retry_wait, ApiError, classify_file_response,
  is_retryable, is_fail_fast, error_is, err_unauthorized, err_not_found, err_rate_limited,
}

-- The conversion keeps the order of two counts, never passes the largest duration, and is exact
-- below the largest number of whole seconds (a count below 0 gives 0).
pub seconds_to_duration-le :
    (a b : ℤ)
    → a ≤ℤ b
    → (seconds_to_duration a ≤ seconds_to_duration b)
      × (seconds_to_duration b ≤ max_duration)
      × ((seconds_to_duration b ≡ pos_part b * 1_000_000_000) ⊎ (9_223_372_036 ≤ pos_part b))
unfolding seconds_to_duration
seconds_to_duration-le a b h = (ground arith, ground arith, ground arith)

-- The larger of two waits, under a cap.
capped : ℤ → ℤ → ℤ → ℤ
capped local server max_wait =
    let wait = if less local server then server else local in
    if less (pos 0) max_wait && less max_wait wait then max_wait else wait

capped_bounds :
    (local server max_wait : ℤ)
    → pos 1 ≤ℤ max_wait
    → (capped local server max_wait ≤ℤ max_wait)
      × ((capped local server max_wait ≡ max_wait)
          ⊎ ((local ≤ℤ capped local server max_wait) × (server ≤ℤ capped local server max_wait)))
unfolding capped
capped_bounds local server max_wait h = elim (Bool-cases (less local server)) [
  | inl more ↦ elim (Bool-cases (less max_wait server)) [
    | inl over ↦ (ground arith, inl (ground arith))
    | inr under ↦ (ground arith, inr (ground arith, ground arith))
  ]
  | inr less_ ↦ elim (Bool-cases (less max_wait local)) [
    | inl over ↦ (ground arith, inl (ground arith))
    | inr under ↦ (ground arith, inr (ground arith, ground arith))
  ]
]

module _ (parse_time : Bytes → Option ℕ) where
  -- With a positive cap, the wait is at most the cap, and it is the cap or at least as long as both
  -- the local backoff and what the server asks for.
  pub next_retry_wait_bounds :
      (resp : Option Response) (local_backoff max_wait : ℤ) (now : ℕ)
      → pos 1 ≤ℤ max_wait
      → let wait = next_retry_wait parse_time resp local_backoff max_wait now in
        (wait ≤ℤ max_wait)
        × ((wait ≡ max_wait)
            ⊎ ((local_backoff ≤ℤ wait)
                × (pos (retry_after_from_response parse_time resp now) ≤ℤ wait)))
  unfolding next_retry_wait capped
  next_retry_wait_bounds resp local_backoff max_wait now h =
      capped_bounds local_backoff (pos (retry_after_from_response parse_time resp now)) max_wait h

-- A response is an error only where its status is not 2xx; no failure is both permanent and worth
-- a retry; a permanent failure is one of the two sentinels for access and absence, and a rate limit
-- is worth a retry.
pub classify_file_response_lem :
    (resp : Response) (url : Bytes) (e : ApiError)
    → classify_file_response (some resp) url ≡ some e
    → ((resp.status_code < 200) ⊎ (300 ≤ resp.status_code))
      × ((is_retryable e && is_fail_fast e) ≡ false)
      × (is_fail_fast e ≡ (error_is e err_unauthorized || error_is e err_not_found))
      × ((error_is e err_rate_limited ≡ false) ⊎ (is_retryable e ≡ true))
unfolding classify_file_response is_retryable is_fail_fast error_is
classify_file_response_lem resp url e h = (ground arith, ground arith, ground arith, ground arith)
