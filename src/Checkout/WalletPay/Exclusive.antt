-- ===== src/Checkout/WalletPay/Exclusive.antt =====
-- apps/api/src/store/checkout.service.ts: a payment by the balance that is no replay found no card
-- payment in its way, and leaves the order paid.
use i_code_host_pro.Prelude.{
  ℕ, ◌≡◌, Bool, true, false, none, some, arith, Option-cases, Bool-cases, inl, inr, opt_eq_iff,
}
use i_code_host_pro.Prelude.Int.{ℤ}
use i_code_host_pro.Prelude.Text.{Text}
use i_code_host_pro.Prelude.Actions.{done, Outcome-cases, transaction, ◌>>=◌, >>=_done}
use i_code_host_pro.Wallet.Db.{find_customer}
use i_code_host_pro.Store.OrderLifecycle.{OrderStatus, is_pending_payment}
use i_code_host_pro.Checkout.Types.{Order, Database}
use i_code_host_pro.Checkout.Gate.{find_order}
use i_code_host_pro.Checkout.Confirm.{confirm_order_within}
use i_code_host_pro.Checkout.Settle.{is_settled, user_of}
use i_code_host_pro.Checkout.Confirm.Paid.{confirm_order_within-IsConfirmed, settled_after}
use i_code_host_pro.Checkout.WalletPay.{
  Env, User, PayWithWalletResult, live_card, blocking_payment, pay_context, report, debit_order,
  confirm_and_report, card_gate, charge_gate, replay_payment, pay_pending, pay_locked,
  pay_order_with_wallet, balance_of,
}

-- What a new payment found under the lock of the order, and what it leaves.
pub record IsExclusive (id customer_id : ℕ) (seen db' : Database) : Type 0 where
  pub no_live : live_card id seen.cards.payments ≡ none
  pub no_block : blocking_payment customer_id seen.cards.payments ≡ none
  pub row : Order
  pub after : find_order id db'.orders ≡ some row
  pub settled : is_settled row.status ≡ true

module _ (env : Env) (user : User) (required : Bool) (preview : Order) where
  confirm_and_report_settled :
      (db : Database) (r : PayWithWalletResult) (db' : Database)
      → confirm_and_report env user preview db ≡ (done r, db')
      → (o : Order) × (find_order preview.id db'.orders ≡ some o) × (is_settled o.status ≡ true)
  unfolding confirm_and_report report
  confirm_and_report_settled db r db' h =
      let ctx = pay_context env user preview in
      let (c, works, told) =
        >>=_done (confirm_order_within env.confirm_env ctx preview.id) (report preview) db db' r
          h in
      settled_after env.confirm_env preview.id db c db'
        (confirm_order_within-IsConfirmed env.confirm_env ctx preview.id db c db' (ground arith))

  paid_after :
      (row : Order) (db : Database) (r : PayWithWalletResult) (db' : Database)
      → live_card preview.id db.cards.payments ≡ none
      → blocking_payment preview.customer_id db.cards.payments ≡ none
      → pay_pending env user required preview row db ≡ (done r, db')
      → IsExclusive preview.id preview.customer_id db db'
  unfolding pay_pending
  paid_after row db r db' no_live no_block h =
      let finish = λ (u : Unit {0}). confirm_and_report env user preview in
      let debited = λ (u : Unit {0}). debit_order env preview row >>= finish in
      let charged = λ (u : Unit {0}). charge_gate required row >>= debited in
      let (a, _, h₁) = >>=_done (card_gate preview) charged db db' r h in
      let d₁ = (card_gate preview db).1 in
      let (b, _, h₂) = >>=_done (charge_gate required row) debited d₁ db' r h₁ in
      let d₂ = (charge_gate required row d₁).1 in
      let (c, _, h₃) = >>=_done (debit_order env preview row) finish d₂ db' r h₂ in
      let (o, found, settled) =
        confirm_and_report_settled (debit_order env preview row d₂).1 r db' h₃ in
      record { no_live = no_live; no_block = no_block; row = o; after = found; settled = settled }

  pay_pending-IsExclusive :
      (row : Order) (db : Database) (r : PayWithWalletResult) (db' : Database)
      → pay_pending env user required preview row db ≡ (done r, db')
      → IsExclusive preview.id preview.customer_id db db'
  unfolding pay_pending card_gate
  pay_pending-IsExclusive row db r db' h =
      elim (Option-cases (live_card preview.id db.cards.payments)) [
        | inr (p, live) ↦ absurd (ground arith)
        | inl no_live ↦
            elim (Option-cases (blocking_payment preview.customer_id db.cards.payments)) [
              | inr (p, blocks) ↦ absurd (ground arith)
              | inl no_block ↦ paid_after row db r db' no_live no_block h
            ]
      ]

  replay_payment_replayed :
      (status : OrderStatus) (amount balance : ℤ) (currency : Text) (db : Database)
      (r : PayWithWalletResult) (db' : Database)
      → replay_payment env preview status amount currency balance db ≡ (done r, db')
      → r.replayed ≡ true
  unfolding replay_payment
  replay_payment_replayed status amount balance currency db r db' h = ground arith

  pay_locked-IsExclusive :
      (db : Database) (r : PayWithWalletResult) (db' : Database)
      → pay_locked env user required preview db ≡ (done r, db')
      → r.replayed ≡ false
      → IsExclusive preview.id preview.customer_id db db'
  unfolding pay_locked
  pay_locked-IsExclusive db r db' h first = elim (Option-cases (find_order preview.id db.orders)) [
    | inl missing ↦ absurd (ground arith)
    | inr (row, found) ↦ elim (Bool-cases (is_pending_payment row.status)) [
      | inl pending ↦ pay_pending-IsExclusive row db r db' (ground arith)
      | inr closed ↦ absurd (
          ground (
            arith,
            replay_payment_replayed row.status row.amount_ttc_cents
                (balance_of preview.customer_id db) row.currency db r db',
          ))
    ]
  ]

-- A payment by the balance that is not refused and is no replay was made by the user whose customer
-- the order has. Under the lock of the order it found no card payment of the order still open and
-- none of the customer that blocks, and it leaves the order in a state that counts as paid.
pub pay_order_with_wallet-IsExclusive :
    (env : Env) (user : User) (required : Bool) (id : ℕ) (db : Database) (r : PayWithWalletResult)
    (db' : Database)
    → pay_order_with_wallet env id user required db ≡ (done r, db')
    → r.replayed ≡ false
    → (o : Order) × (find_order id db.orders ≡ some o)
      × (user_of o db ≡ some user.id)
      × IsExclusive o.id o.customer_id (env.before_lock db) db'
unfolding pay_order_with_wallet transaction user_of
pay_order_with_wallet-IsExclusive env user required id db r db' h first =
    elim (Option-cases (find_order id db.orders)) [
      | inl missing ↦ absurd (ground arith)
      | inr (o, found) ↦ elim (Option-cases (find_customer o.customer_id db.wallet.customers)) [
        | inl nobody ↦ absurd (ground arith)
        | inr (c, there) ↦ elim (Bool-cases (is_pending_payment o.status)) [
          | inr closed ↦ absurd (
              ground (
                arith,
                replay_payment_replayed env user required o o.status o.amount_ttc_cents
                    c.wallet_balance_cents o.currency db r db',
              ))
          | inl pending ↦
              elim (Outcome-cases (pay_locked env user required o (env.before_lock db)).0) [
                | inl (e, fails) ↦ absurd (ground arith)
                | inr (r', works) ↦ (
                  o,
                  found,
                  ground (arith, opt_eq_iff c.user_id (some user.id)),
                  pay_locked-IsExclusive env user required o (env.before_lock db) r db'
                      (ground arith) first,
                )
              ]
        ]
      ]
    ]
