-- ===== src/Wallet/Owner.antt =====
-- apps/api/src/wallet/wallet.service.ts: `ensureOwnedCustomer`, which finds, links or makes the
-- customer of an account.
pub mod Links
mod Tests
use i_code_host_pro.Prelude.{
  ℕ, zero, suc, ◌≡◌, Bool, true, false, not, ◌&&◌, ◌||◌, Option, none, some, List, [], ◌∷◌, ◌++◌,
  any, find, ◌==◌, if◌then◌else◌, is_some, map, or_else,
}
use i_code_host_pro.Prelude.Int.{pos}
use i_code_host_pro.Prelude.Text.{Text, text_eq, trim, is_empty}
use i_code_host_pro.Wallet.Types.{
  Customer, User, Db, Result, ok, err, Action, raise, account_disabled, linked_to_other_account,
  unique_violation, user_id_field,
}
use i_code_host_pro.Wallet.Apply.{usd}

-- What a turn of the loop takes from outside: what other processes commit before each of its queries,
-- and the generated key.
pub record Turn : Type 0 where
  pub before_user : Db → Db
  pub before_email : Db → Db
  pub before_write : Db → Db
  pub new_id : ℕ

abbrev pub is_user : ℕ → Option ℕ → Bool
is_user user none = false
is_user user (some u) = u == user

abbrev pub find_by_user : ℕ → List Customer → Option Customer
find_by_user user = find (λ c. is_user user c.user_id)

abbrev pub find_by_email : Text → List Customer → Option Customer
find_by_email email = find (λ c. text_eq c.email email)

-- `updateMany` by id where no account is linked, and whether it finds the row.
unfoldable pub link : ℕ → ℕ → Customer → Customer
link id user c =
    if c.id == id && not (is_some c.user_id) then record c { user_id = some user } else c

abbrev pub is_free : ℕ → List Customer → Bool
is_free id = any (λ c. c.id == id && not (is_some c.user_id))

-- The row that is made for an account; the name falls back to the address.
abbrev pub made : ℕ → User → Customer
made new_id me = record {
  id = new_id;
  email = me.email;
  name = let name = trim (or_else me.name []) in if is_empty name then me.email else name;
  user_id = some me.id;
  wallet_balance_cents = pos 0;
  wallet_currency = usd;
}

-- The loop: `turns` is the turns that are left. A lost race and a refused creation go on, and an
-- account that was linked elsewhere meanwhile makes the link fail (P2002, which is not caught).
unfoldable pub own_attempts : User → List Turn → Action Customer
own_attempts me [] db = raise linked_to_other_account db
own_attempts me (turn ∷ turns) db =
    let again = λ (d : Db). own_attempts me turns d in
    let db₁ = turn.before_user db in
    elim (find_by_user me.id db₁.customers) [
      | some c ↦ (ok c, db₁)
      | none ↦
          let db₂ = turn.before_email db₁ in
          let db₃ = turn.before_write db₂ in
          let taken = is_some (find_by_user me.id db₃.customers) in
          elim (find_by_email me.email db₂.customers) [
            | some c ↦ elim c.user_id [
              | some u ↦ if u == me.id then (ok c, db₂) else raise linked_to_other_account db₂
              | none ↦
                  if not (is_free c.id db₃.customers)
                  then again db₃
                  else if taken
                  then raise (unique_violation user_id_field) db₃
                  else (ok c, record db₃ { customers = map (link c.id me.id) db₃.customers })
            ]
            | none ↦
                if taken || is_some (find_by_email me.email db₃.customers) then again db₃ else (
                  ok (made turn.new_id me),
                  record db₃ { customers = db₃.customers ++ (made turn.new_id me ∷ []) },
                )
          ]
    ]

unfoldable pub ensure_owned_customer : Turn → Turn → ℕ → Action Customer
ensure_owned_customer first second sub db = elim (find (λ u. u.id == sub) db.users) [
  | none ↦ raise account_disabled db
  | some me ↦
      if me.is_active then own_attempts me (first ∷ second ∷ []) db else raise account_disabled db
]
