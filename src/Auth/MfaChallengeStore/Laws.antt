-- ===== src/Auth/MfaChallengeStore/Laws.antt =====
-- apps/api/src/auth/mfa/mfa-challenge.store.ts: a challenge is found until it expires, and consumed
-- once.
use i_code_host_pro.Prelude.{
  ℕ, ◌+◌, ◌≡◌, ◌≢◌, none, some, leb, ==_refl, if◌then◌else◌, arith, Option-cases, inl, inr,
}
use i_code_host_pro.Prelude.Dict.{lookup, lookup-erase}
use i_code_host_pro.Auth.MfaChallengeStore.{MfaChallenge, Store, get, consume}

-- A challenge that was consumed cannot be found or consumed again, at any time.
pub consume_once :
    (now later id : ℕ) (s s' : Store) (c : MfaChallenge)
    → consume now id s ≡ (s', some c)
    → (get later id s' ≡ (s', none)) × (consume later id s' ≡ (s', none))
unfolding consume get
consume_once now later id s s' c h =
    let gone : lookup id s' ≡ none = elim (Option-cases (lookup id s)) [
      | inl absent ↦ absurd (ground arith)
      | inr (d, e) ↦ ground (arith, lookup-erase id id s, ==_refl id)
    ] in
    (ground arith, ground arith)

-- A challenge is given out exactly until its time to live has passed since it was made, and after
-- that it is removed.
pub get_live :
    (now id : ℕ) (s : Store) (c : MfaChallenge)
    → lookup id s ≡ some c
    → let live = if leb (c.created_at + c.ttl_ms) now then none else some c in
      ((get now id s).1 ≡ live) × (lookup id (get now id s).0 ≡ live)
unfolding get
get_live now id s c h = (ground arith, ground (arith, lookup-erase id id s, ==_refl id))

-- Reading a challenge leaves the others alone.
pub get_others :
    (now id other : ℕ) (s : Store) → other ≢ id → lookup other (get now id s).0 ≡ lookup other s
unfolding get
get_others now id other s ne = ground (arith, lookup-erase id other s)
