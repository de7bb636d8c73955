-- ===== src/HubTree/Wait/Policy.antt =====
-- The waits of internal/hubtree/hubtree.go against those of pkg/hfdownloader/retry.go, which they
-- repeat, and the schedule of its backoff.
use native.Mathlib.Nat.{pow-suc, mul_assoc, mul_comm}
use hfdesk.Base.{
  ℕ, zero, suc, ◌*◌, ◌^◌, ◌≤◌, ◌≡◌, refl, ap, ◌∙◌, sym, ◌⊎◌, true, false, Option, none, some, List,
  [], ◌∷◌, arith, Bytes, ℤ, is_nonpos, ◌==◌, if◌then◌else◌, min, bytes_eq, codes, cut, split, trim,
  trim_space,
}
use hfdesk.Net.{Response, atoi, until}
use hfdesk.Downloader.Retry
use hfdesk.HubTree.Wait.{
  backoff_for, double, seconds_to_duration, wait_of_fields, parse_rate_limit, parse_retry_after,
  server_hint, retry_wait, max_retry_wait, retry_backoff_base,
}

-- The loop of the backoff.
double_step : (n d : ℕ) → d * 2 ^ suc n ≡ d * 2 * 2 ^ n
double_step n d = ap (λ t. d * t) (pow-suc 2 n ∙ mul_comm (2 ^ n) 2) ∙ sym (mul_assoc d 2 (2 ^ n))

mul_pow_ge : (n d : ℕ) → d ≤ d * 2 ^ n
mul_pow_ge zero d = omega arith
mul_pow_ge (suc n) d = omega (arith, double_step n d, mul_pow_ge n (d * 2))

double-pow : (n d : ℕ) → min (double n d) max_retry_wait ≡ min (d * 2 ^ n) max_retry_wait
unfolding double
double-pow zero d = omega arith
double-pow (suc n) d =
    let step = double_step n d in
    let ge = mul_pow_ge (suc n) d in let rec = double-pow n (d * 2) in ground arith

-- The wait after failure n is 250 milliseconds times 2^n, but at most five minutes.
pub backoff_for_lem : (n : ℕ) → backoff_for n ≡ min (retry_backoff_base * 2 ^ n) max_retry_wait
unfolding backoff_for
backoff_for_lem n = let step = double-pow n retry_backoff_base in ground arith

seconds_eq :
    (s : ℤ) → seconds_to_duration s ≡ (if is_nonpos s then 0 else Retry.seconds_to_duration s)
unfolding seconds_to_duration Retry.seconds_to_duration
seconds_eq s = ground arith

wait_of_fields_eq : (parts : List Bytes) → wait_of_fields parts ≡ Retry.wait_of_fields parts
unfolding wait_of_fields Retry.wait_of_fields
wait_of_fields_eq [] = refl
wait_of_fields_eq (part ∷ parts) = λ i. elim (cut b'=' (trim_space part)) [
  | none ↦ wait_of_fields_eq parts i
  | some (key, val) ↦ elim (bytes_eq (trim_space key) (codes "t")) [
    | false ↦ wait_of_fields_eq parts i
    | true ↦ elim (atoi (trim (λ c. c == b'"') (trim_space val))) [
      | none ↦ 0
      | some secs ↦ seconds_eq secs i
    ]
  ]
]

module _ (parse_time : Bytes → Option ℕ) where
  parse_retry_after_eq :
      (v : Bytes) (now : ℕ)
      → parse_retry_after parse_time v now ≡ Retry.parse_retry_after_value parse_time v now
  unfolding parse_retry_after Retry.parse_retry_after_value
  parse_retry_after_eq v now = λ i.
      if bytes_eq (trim_space v) [] then 0 else elim (atoi (trim_space v)) [
        | some secs ↦ seconds_eq secs i
        | none ↦ elim (parse_time (trim_space v)) [ none ↦ 0 | some t ↦ until t now ]
      ]

  -- The tree client and the downloader read the same wait out of every response.
  pub server_hint_eq :
      (resp : Option Response) (now : ℕ)
      → server_hint parse_time resp now ≡ Retry.retry_after_from_response parse_time resp now
  unfolding server_hint Retry.retry_after_from_response parse_rate_limit
      Retry.parse_rate_limit_header
  server_hint_eq none now = refl
  server_hint_eq (some resp) now = cc (
    parse_retry_after_eq resp.retry_after now,
    wait_of_fields_eq (split b';' (trim_space resp.rate_limit)),
  )

  -- The wait before a retry is at most five minutes, and below this it is at least as long as the
  -- backoff and as the downloader's reading of the response.
  pub retry_wait_bounds :
      (resp : Option Response) (local now : ℕ)
      → let wait = retry_wait parse_time resp local now in
        (wait ≤ max_retry_wait)
        × ((wait ≡ max_retry_wait)
            ⊎ ((local ≤ wait) × (Retry.retry_after_from_response parse_time resp now ≤ wait)))
  unfolding retry_wait
  retry_wait_bounds resp local now =
      let same = server_hint_eq resp now in (ground arith, ground arith)
