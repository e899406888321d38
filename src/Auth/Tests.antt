-- ===== src/Auth/Tests.antt =====
-- apps/api/src/auth: runs of the in-memory stores, and the theorems applied there.
use i_code_host_pro.Prelude.{◌≡◌, refl, none, some, [], ◌∷◌, arith, ltb, filter, length}
use i_code_host_pro.Prelude.Dict.{lookup, erase}
use i_code_host_pro.Auth.MfaChallengeStore.{
  totp, email, MfaChallenge, Store, fresh_challenge, get, consume,
}
use i_code_host_pro.Auth.MfaChallengeStore.Laws.{consume_once}
use i_code_host_pro.Auth.RateLimiter.{consume_bucket, in_window}
use i_code_host_pro.Auth.RateLimiter.Window.{serve, consume_bucket_exact}

abbrev challenge : MfaChallenge
challenge = fresh_challenge 5 1000 42 totp (totp ∷ email ∷ []) 300

abbrev store : Store
store = record { key = 5; value = challenge } ∷ []

store-consumed : consume 1200 5 store ≡ ([], some challenge)
unfolding consume get lookup erase
store-consumed = refl

consume_once_example : (get 1250 5 [] ≡ ([], none)) × (consume 1250 5 [] ≡ ([], none))
consume_once_example = consume_once 1200 1250 5 store [] challenge store-consumed

-- Two calls a minute at most: the third, within a minute of the first, is refused.
consume_bucket_exact_example :
    let (bucket, log) = serve 2 60 (10 ∷ 20 ∷ []) ([], []) in
    (consume_bucket 65 2 60 bucket).1.allowed ≡ ltb (length (filter (in_window 65 60) log)) 2
consume_bucket_exact_example =
    consume_bucket_exact 2 60 (10 ∷ 20 ∷ []) 65 (omega arith, (omega arith, omega arith))
