-- ===== src/Auth/RateLimiter.antt =====
-- apps/api/src/auth/rate-limiter.ts: `SaRateLimiter`, a sliding window of instants for each key. The
-- clock is an argument; limits and windows are natural numbers, keys are only compared.
pub mod Window
use i_code_host_pro.Prelude.{
  ℕ, zero, suc, ◌+◌, ◌-◌, ◌≡◌, Bool, true, false, Option, none, some, List, [], ◌∷◌, ◌++◌, leb, ltb,
  ◌==◌, if◌then◌else◌, or_else, filter, length, max,
}
use i_code_host_pro.Prelude.Dict.{Dict, lookup, insert}
use i_code_host_pro.Prelude.Text.{Text, codes}

pub record RateResult : Type 0 where
  pub allowed : Bool
  pub retry_after_ms : ℕ

abbrev pub max_buckets : ℕ
max_buckets = 10000

-- `now - t < windowMs`
abbrev pub in_window : ℕ → ℕ → ℕ → Bool
in_window now window_ms t = ltb now (t + window_ms)

-- The first instant of a list; the source reads it of a list that is not empty.
abbrev pub first : List ℕ → ℕ
first [] = 0
first (t ∷ ts) = t

-- What `consume` makes of the bucket of the key.
unfoldable pub consume_bucket : ℕ → ℕ → ℕ → List ℕ → List ℕ × RateResult
consume_bucket now limit window_ms bucket =
    let current = filter (in_window now window_ms) bucket in
    if leb limit (length current)
    then (
      current,
      record { allowed = false; retry_after_ms = max 1 (window_ms + first current - now) },
    )
    else (current ++ (now ∷ []), record { allowed = true; retry_after_ms = 0 })

unfoldable pub consume : ℕ → ℕ → ℕ → ℕ → Dict (List ℕ) → Dict (List ℕ) × RateResult
consume now key limit window_ms buckets =
    if limit == 0
    then (buckets, record { allowed = false; retry_after_ms = 0 })
    else let kept = if leb max_buckets (length buckets) then [] else buckets in
      let (bucket, result) = consume_bucket now limit window_ms (or_else (lookup key kept) []) in
      (insert key bucket kept, result)

unfoldable pub reset : Dict (List ℕ) → Dict (List ℕ)
reset buckets = []

-- The presets, `RATE`: a limit and a window in milliseconds.
pub data Endpoint : Type 0 where
  login mfa_verify mfa_email_send support_redeem register checkout_intent : Endpoint
  password_reset password_reset_confirm email_change email_change_confirm : Endpoint

abbrev pub rate : Endpoint → ℕ × ℕ
rate login = (10, 60000)
rate mfa_verify = (5, 60000)
rate mfa_email_send = (5, 60000)
rate support_redeem = (10, 60000)
rate register = (5, 60000)
rate checkout_intent = (20, 60000)
rate password_reset = (5, 60000)
rate password_reset_confirm = (10, 60000)
rate email_change = (5, 60000)
rate email_change_confirm = (10, 60000)

-- `rateKey`
unfoldable pub rate_key : Option Text → Text → Text
rate_key ip route = route ++ (b':' ∷ or_else ip (codes "unknown"))
