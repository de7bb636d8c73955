-- ===== src/Downloader/Retry.antt =====
-- pkg/hfdownloader/retry.go and the status classes of pkg/hfdownloader/errors.go. Durations are
-- nanoseconds.
pub mod Bounds
use hfdesk.Base.{
  ℕ, ◌*◌, ◌/◌, ◌^◌, ◌-◌, Bool, true, false, not, ◌&&◌, ◌||◌, Option, none, some, List, [], ◌∷◌,
  ◌==◌, ltb, leb, if◌then◌else◌, Bytes, bytes_eq, codes, cut, split, trim, trim_space, ℤ, pos,
  is_nonpos, pos_part, less,
}
use hfdesk.Net.{Response, atoi, until, max_duration}

unfoldable pub retryable_status : ℕ → Bool
retryable_status code = code == 429 || (leb 500 code && leb code 599)

unfoldable pub fail_fast_status : ℕ → Bool
fail_fast_status code = code == 401 || code == 403 || code == 404

unfoldable pub seconds_to_duration : ℤ → ℕ
seconds_to_duration secs =
    if is_nonpos secs
    then 0
    else (let max_seconds = max_duration / 1_000_000_000 in
        if leb max_seconds (pos_part secs) then max_duration else pos_part secs * 1_000_000_000)

-- The value of the first field `t`; later fields are not looked at.
unfoldable pub wait_of_fields : List Bytes → ℕ
wait_of_fields [] = 0
wait_of_fields (part ∷ parts) = elim (cut b'=' (trim_space part)) [
  | none ↦ wait_of_fields parts
  | some (key, val) ↦ elim (bytes_eq (trim_space key) (codes "t")) [
    | false ↦ wait_of_fields parts
    | true ↦ elim (atoi (trim (λ c. c == b'"') (trim_space val))) [
      | none ↦ 0
      | some secs ↦ if is_nonpos secs then 0 else seconds_to_duration secs
    ]
  ]
]

unfoldable pub parse_rate_limit_header : Bytes → ℕ
unfolding wait_of_fields
parse_rate_limit_header v =
    if bytes_eq (trim_space v) [] then 0 else wait_of_fields (split b';' (trim_space v))

module _ (parse_time : Bytes → Option ℕ) where
  unfoldable pub parse_retry_after_value : Bytes → ℕ → ℕ
  parse_retry_after_value v now =
      if bytes_eq (trim_space v) [] then 0 else elim (atoi (trim_space v)) [
        | some secs ↦ if is_nonpos secs then 0 else seconds_to_duration secs
        | none ↦ elim (parse_time (trim_space v)) [ none ↦ 0 | some t ↦ until t now ]
      ]

  unfoldable pub retry_after_from_response : Option Response → ℕ → ℕ
  retry_after_from_response none now = 0
  retry_after_from_response (some resp) now =
      if resp.status_code == 429 || resp.status_code == 503
      then (let wait = parse_retry_after_value resp.retry_after now in
          let rl = parse_rate_limit_header resp.rate_limit in if ltb wait rl then rl else wait)
      else 0

  unfoldable pub next_retry_wait : Option Response → ℤ → ℤ → ℕ → ℤ
  next_retry_wait resp local_backoff max_wait now =
      let server = pos (retry_after_from_response resp now) in
      let wait = if less local_backoff server then server else local_backoff in
      if less (pos 0) max_wait && less max_wait wait then max_wait else wait

-- The errors that a file response stands for.
pub data Sentinel : Type 0 where
  err_unauthorized err_not_found err_rate_limited : Sentinel

pub data Message : Type 0 where
  no_message needs_auth gated not_found : Message

pub record ApiError : Type 0 where
  pub status_code : ℕ
  pub message : Message
  pub url : Bytes

unfoldable pub new_file_response_error : Response → Bytes → ApiError
new_file_response_error resp url = record {
  status_code = resp.status_code;
  message =
      if resp.status_code == 401
      then needs_auth
      else (if resp.status_code == 403
          then gated
          else (if resp.status_code == 404 then not_found else no_message));
  url = url;
}

unfoldable pub classify_file_response : Option Response → Bytes → Option ApiError
unfolding new_file_response_error
classify_file_response none url = none
classify_file_response (some resp) url =
    if leb 200 resp.status_code && ltb resp.status_code 300
    then none
    else some (new_file_response_error resp url)

unfoldable pub is_retryable : ApiError → Bool
unfolding retryable_status
is_retryable e = retryable_status e.status_code

unfoldable pub is_fail_fast : ApiError → Bool
unfolding fail_fast_status
is_fail_fast e = fail_fast_status e.status_code

-- `Is` against one of the package's errors; none of them wraps another.
unfoldable pub error_is : ApiError → Sentinel → Bool
error_is e err_unauthorized = e.status_code == 401 || e.status_code == 403
error_is e err_not_found = e.status_code == 404
error_is e err_rate_limited = e.status_code == 429
