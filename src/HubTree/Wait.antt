-- ===== src/HubTree/Wait.antt =====
-- The waits between tree requests in internal/hubtree/hubtree.go. Durations are nanoseconds.
pub mod Policy
use hfdesk.Base.{
  ℕ, zero, suc, ◌*◌, ◌/◌, Bool, true, false, ◌&&◌, ◌||◌, Option, none, some, List, [], ◌∷◌, ◌==◌,
  ltb, leb, if◌then◌else◌, Bytes, bytes_eq, codes, cut, split, trim, trim_space, ℤ, is_nonpos,
  pos_part,
}
use hfdesk.Net.{Response, atoi, until, max_duration}

abbrev pub max_retryable_attempts : ℕ
max_retryable_attempts = 5

abbrev pub max_retry_wait : ℕ
max_retry_wait = 300_000_000_000

abbrev pub retry_backoff_base : ℕ
retry_backoff_base = 250_000_000

unfoldable pub retryable_status : ℕ → Bool
retryable_status code = code == 429 || (leb 500 code && leb code 599)

-- The doubling loop, with the rounds that `i < attempt` leaves.
double : ℕ → ℕ → ℕ
double zero d = d
double (suc n) d = elim (ltb d max_retry_wait) [ true ↦ double n (d * 2) | false ↦ d ]

unfoldable pub backoff_for : ℕ → ℕ
unfolding double
backoff_for attempt =
    let d = double attempt retry_backoff_base in if ltb max_retry_wait d then max_retry_wait else d

unfoldable pub seconds_to_duration : ℤ → ℕ
seconds_to_duration secs =
    if is_nonpos secs
    then 0
    else (let max_seconds = max_duration / 1_000_000_000 in
        if leb max_seconds (pos_part secs) then max_duration else pos_part secs * 1_000_000_000)

-- The value of the first field `t`.
wait_of_fields : List Bytes → ℕ
wait_of_fields [] = 0
wait_of_fields (part ∷ parts) = elim (cut b'=' (trim_space part)) [
  | none ↦ wait_of_fields parts
  | some (key, val) ↦ elim (bytes_eq (trim_space key) (codes "t")) [
    | false ↦ wait_of_fields parts
    | true ↦ elim (atoi (trim (λ c. c == b'"') (trim_space val))) [
      | none ↦ 0
      | some secs ↦ seconds_to_duration secs
    ]
  ]
]

unfoldable pub parse_rate_limit : Bytes → ℕ
unfolding wait_of_fields
parse_rate_limit v =
    if bytes_eq (trim_space v) [] then 0 else wait_of_fields (split b';' (trim_space v))

module _ (parse_time : Bytes → Option ℕ) where
  unfoldable pub parse_retry_after : Bytes → ℕ → ℕ
  parse_retry_after v now = if bytes_eq (trim_space v) [] then 0 else elim (atoi (trim_space v)) [
    | some secs ↦ seconds_to_duration secs
    | none ↦ elim (parse_time (trim_space v)) [ none ↦ 0 | some t ↦ until t now ]
  ]

  unfoldable pub server_hint : Option Response → ℕ → ℕ
  server_hint none now = 0
  server_hint (some resp) now =
      if resp.status_code == 429 || resp.status_code == 503
      then (let wait = parse_retry_after resp.retry_after now in
          let rl = parse_rate_limit resp.rate_limit in if ltb wait rl then rl else wait)
      else 0

  unfoldable pub retry_wait : Option Response → ℕ → ℕ → ℕ
  retry_wait resp local now =
      let hint = server_hint resp now in
      let wait = if ltb local hint then hint else local in
      if ltb max_retry_wait wait then max_retry_wait else wait
