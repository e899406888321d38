-- ===== src/Wallet/Owner/Links.antt =====
-- apps/api/src/wallet/wallet.service.ts: a customer that is linked to an account stays linked to it.
use i_code_host_pro.Prelude.{
  ℕ, ◌≡◌, Option, none, some, List, [], ◌∷◌, ◌++◌, find, ◌==◌, map, arith, Option-cases, inl, inr,
  All,
}
use i_code_host_pro.Wallet.Types.{Customer, User, Db}
use i_code_host_pro.Wallet.Db.{find_customer}
use i_code_host_pro.Wallet.Owner.{
  Turn, find_by_user, find_by_email, link, made, own_attempts, ensure_owned_customer,
}

-- The account that a customer is linked to.
abbrev pub owner : ℕ → List Customer → Option ℕ
owner id cs = elim (find_customer id cs) [ none ↦ none | some c ↦ c.user_id ]

owner-link :
    (id user k v : ℕ) (cs : List Customer)
    → owner id cs ≡ some user
    → owner id (map (link k v) cs) ≡ some user
unfolding link
owner-link id user k v [] h = h
owner-link id user k v (c ∷ cs) h = elim (Option-cases c.user_id) [
  | inl free ↦ ground (arith, owner-link id user k v cs)
  | inr (u, e) ↦ ground (arith, owner-link id user k v cs)
]

owner-append :
    (id user : ℕ) (cs more : List Customer)
    → owner id cs ≡ some user
    → owner id (cs ++ more) ≡ some user
owner-append id user [] more h = absurd (cc)
owner-append id user (c ∷ cs) more h = ground (arith, owner-append id user cs more)

-- Other processes leave the link of the customer alone.
pub record KeepsOwner (id user : ℕ) (turn : Turn) : Type 0 where
  pub before_user :
      (d : Db)
      → owner id d.customers ≡ some user
      → owner id (turn.before_user d).customers ≡ some user
  pub before_email :
      (d : Db)
      → owner id d.customers ≡ some user
      → owner id (turn.before_email d).customers ≡ some user
  pub before_write :
      (d : Db)
      → owner id d.customers ≡ some user
      → owner id (turn.before_write d).customers ≡ some user

own_attempts-owner :
    (id user : ℕ) (me : User) (turns : List Turn) (db : Db)
    → All (KeepsOwner id user) turns
    → owner id db.customers ≡ some user
    → owner id (own_attempts me turns db).1.customers ≡ some user
unfolding own_attempts
own_attempts-owner id user me [] db keeps h = h
own_attempts-owner id user me (turn ∷ turns) db (keep, rest) h =
    let db₁ = turn.before_user db in
    let db₂ = turn.before_email db₁ in
    let db₃ = turn.before_write db₂ in
    let h₁ = keep.before_user db h in
    let h₂ = keep.before_email db₁ h₁ in
    let h₃ = keep.before_write db₂ h₂ in
    let again = own_attempts-owner id user me turns db₃ rest h₃ in
    let grown = owner-append id user db₃.customers (made turn.new_id me ∷ []) h₃ in
    elim (Option-cases (find_by_user me.id db₁.customers)) [
      | inr (c, e) ↦ rw (e, own_attempts) h₁
      | inl absent ↦ elim (Option-cases (find_by_email me.email db₂.customers)) [
        | inr (c, e) ↦ elim (Option-cases c.user_id) [
          | inr (u, f) ↦ rw (absent, own_attempts, e, f) (ground arith)
          | inl free ↦
              let linked = owner-link id user c.id me.id db₃.customers h₃ in
              rw (absent, own_attempts, e, free) (ground arith)
        ]
        | inl unknown ↦ rw (absent, own_attempts, unknown) (ground arith)
      ]
    ]

-- A customer that is linked to an account is still linked to it after any account asked for its own
-- customer, however the call ends, if other processes leave that link alone.
pub ensure_owned_customer-owner :
    (first second : Turn) (sub id user : ℕ) (db : Db)
    → KeepsOwner id user first
    → KeepsOwner id user second
    → owner id db.customers ≡ some user
    → owner id (ensure_owned_customer first second sub db).1.customers ≡ some user
unfolding ensure_owned_customer
ensure_owned_customer-owner first second sub id user db k₁ k₂ h =
    elim (Option-cases (find (λ u. u.id == sub) db.users)) [
      | inl gone ↦ rw (gone, ensure_owned_customer) h
      | inr (me, e) ↦
          let kept = own_attempts-owner id user me (first ∷ second ∷ []) db (k₁, (k₂, tt)) h in
          rw (e, ensure_owned_customer) (ground arith)
    ]
