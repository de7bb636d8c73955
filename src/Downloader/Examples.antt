-- ===== src/Downloader/Examples.antt =====
-- The theorems on pkg/hfdownloader at concrete responses.
use hfdesk.Base.{
  ◌≡◌, refl, true, false, ◌⊎◌, ◌*◌, ◌≤◌, ◌<◌, ◌&&◌, ◌||◌, ℕ, arith, Bytes, codes, none, some,
  Option, pos, negsuc, ◌≤ℤ◌, pos_part, [],
}
use hfdesk.Net.{Response, max_duration}
use hfdesk.Downloader.Retry.{
  seconds_to_duration, retry_after_from_response, next_retry_wait, classify_file_response,
  new_file_response_error, ApiError, gated, is_retryable, is_fail_fast, error_is, err_unauthorized,
  err_not_found, err_rate_limited,
}
use hfdesk.Downloader.Retry.Bounds.{
  seconds_to_duration-le, next_retry_wait_bounds, classify_file_response_lem,
}

seconds_to_duration-le_example :
    (seconds_to_duration (negsuc 4) ≤ seconds_to_duration (pos 90))
    × (seconds_to_duration (pos 90) ≤ max_duration)
    × ((seconds_to_duration (pos 90) ≡ pos_part (pos 90) * 1_000_000_000)
        ⊎ (9_223_372_036 ≤ pos_part (pos 90)))
seconds_to_duration-le_example = seconds_to_duration-le (negsuc 4) (pos 90) (omega arith)

abbrev no_time : Bytes → Option ℕ
no_time v = none

abbrev reply : ℕ → Response
reply code = record { status_code = code; retry_after = codes "30"; rate_limit = [] }

next_retry_wait_bounds_example :
    (next_retry_wait no_time (some (reply 429)) (pos 400) (pos 10_000_000_000) 0
      ≤ℤ pos 10_000_000_000)
    × ((next_retry_wait no_time (some (reply 429)) (pos 400) (pos 10_000_000_000) 0
          ≡ pos 10_000_000_000)
        ⊎ ((pos 400 ≤ℤ next_retry_wait no_time (some (reply 429)) (pos 400) (pos 10_000_000_000) 0)
            × (pos (retry_after_from_response no_time (some (reply 429)) 0)
                ≤ℤ next_retry_wait no_time (some (reply 429)) (pos 400) (pos 10_000_000_000) 0)))
next_retry_wait_bounds_example =
    next_retry_wait_bounds no_time (some (reply 429)) (pos 400) (pos 10_000_000_000) 0 (omega arith)

abbrev forbidden : ApiError
forbidden = record { status_code = 403; message = gated; url = codes "u" }

classify_file_response_lem_example :
    ((403 < 200) ⊎ (300 ≤ 403))
    × ((is_retryable forbidden && is_fail_fast forbidden) ≡ false)
    × (is_fail_fast forbidden
        ≡ (error_is forbidden err_unauthorized || error_is forbidden err_not_found))
    × ((error_is forbidden err_rate_limited ≡ false) ⊎ (is_retryable forbidden ≡ true))
unfolding classify_file_response new_file_response_error
classify_file_response_lem_example =
    classify_file_response_lem (reply 403) (codes "u") forbidden refl
