-- ===== src/Auth/MfaChallengeStore.antt =====
-- apps/api/src/auth/mfa/mfa-challenge.store.ts: `MfaChallengeStore`. The clock and the generated id
-- are arguments; ids and user ids are only compared.
pub mod Laws
use i_code_host_pro.Prelude.{
  ℕ, ◌+◌, ◌≡◌, Bool, true, false, Option, none, some, List, [], ◌∷◌, leb, if◌then◌else◌,
}
use i_code_host_pro.Prelude.Dict.{Dict, lookup, insert, erase}
use i_code_host_pro.Prelude.Text.{Text}

pub data MfaMethod : Type 0 where
  totp email : MfaMethod

pub record MfaChallenge : Type 0 where
  pub id : ℕ
  pub sub : ℕ
  pub method : MfaMethod
  pub methods : List MfaMethod
  pub created_at : ℕ
  pub ttl_ms : ℕ
  pub attempts : ℕ
  pub email_otp_hash : Option Text
  pub email_otp_expires_at : Option ℕ

abbrev pub Store : Type 0
Store = Dict MfaChallenge

-- The challenge that `create` stores.
abbrev pub fresh_challenge : ℕ → ℕ → ℕ → MfaMethod → List MfaMethod → ℕ → MfaChallenge
fresh_challenge id now sub method methods ttl_ms = record {
  id = id;
  sub = sub;
  method = method;
  methods = methods;
  created_at = now;
  ttl_ms = ttl_ms;
  attempts = 0;
  email_otp_hash = none;
  email_otp_expires_at = none;
}

unfoldable pub create : ℕ → ℕ → ℕ → MfaMethod → List MfaMethod → ℕ → Store → Store × ℕ
create id now sub method methods ttl_ms s =
    (insert id (fresh_challenge id now sub method methods ttl_ms) s, id)

-- `get`: `now - createdAt >= ttlMs`, with the subtraction on the other side.
unfoldable pub get : ℕ → ℕ → Store → Store × Option MfaChallenge
get now id s = elim (lookup id s) [
  | none ↦ (s, none)
  | some c ↦ if leb (c.created_at + c.ttl_ms) now then (erase id s, none) else (s, some c)
]

unfoldable pub save : MfaChallenge → Store → Store
save c s = insert c.id c s

unfoldable pub consume : ℕ → ℕ → Store → Store × Option MfaChallenge
consume now id s =
    let (s', found) = get now id s in
    elim found [ none ↦ (s', none) | some c ↦ (erase id s', some c) ]

unfoldable pub reset : Store → Store
reset s = []
