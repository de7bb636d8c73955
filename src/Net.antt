-- ===== src/Net.antt =====
-- What the HTTP clients of pkg/hfdownloader and internal/hubtree read of a response, and
-- `strconv.Atoi`. `parse_time`, the date parser of net/http, is an argument of the functions here.
use hfdesk.Base.{
  ℕ, zero, suc, ◌-◌, ◌^◌, Option, none, some, [], ◌∷◌, ◌==◌, leb, ltb, if◌then◌else◌, Bytes, digits,
  ℤ, pos, negsuc,
}

-- The status code and the headers `Retry-After` and `RateLimit`, empty where they are missing.
pub record Response : Type 0 where
  pub status_code : ℕ
  pub retry_after : Bytes
  pub rate_limit : Bytes

negated : ℕ → ℤ
negated zero = pos 0
negated (suc n) = negsuc n

-- `digits` after a sign, with an error beyond 64 bits.
signed : Bytes → Option ℤ
unfolding negated
signed [] = none
signed (c ∷ s) =
    if c == b'-'
    then elim s [
      | [] ↦ none
      | d ∷ r ↦ elim (digits 0 (d ∷ r)) [
        | none ↦ none
        | some n ↦ if leb n (2 ^ 63) then some (negated n) else none
      ]
    ]
    else (if c == b'+'
        then elim s [
          | [] ↦ none
          | d ∷ r ↦ elim (digits 0 (d ∷ r)) [
            | none ↦ none
            | some n ↦ if ltb n (2 ^ 63) then some (pos n) else none
          ]
        ]
        else elim (digits 0 (c ∷ s)) [
          | none ↦ none
          | some n ↦ if ltb n (2 ^ 63) then some (pos n) else none
        ])

unfoldable pub atoi : Bytes → Option ℤ
unfolding signed
atoi s = signed s

-- `t.Sub(now)` where it is positive, else 0. The difference saturates.
abbrev pub max_duration : ℕ
max_duration = 2 ^ 63 - 1

abbrev pub until : ℕ → ℕ → ℕ
until t now = if ltb max_duration (t - now) then max_duration else t - now
