-- ===== src/Checkout/WalletPay/Laws.antt =====
-- apps/api/src/store/checkout.service.ts: a payment by the balance keeps the books and is made only
-- where no card payment is open.
use i_code_host_pro.Prelude.{
  ℕ, ◌≡◌, refl, Bool, true, false, some, arith, Option-cases, Bool-cases, inl, inr, opt_eq,
}
use i_code_host_pro.Prelude.Int.{ℤ, leb_ℤ, ltb_ℤ, pos}
use i_code_host_pro.Prelude.Text.{Text, text_eq}
use i_code_host_pro.Prelude.Actions.{Outcome-cases, transaction, ◌>>=◌, >>=_keeps}
use i_code_host_pro.Wallet.Types.{debit, Result-cases}
use i_code_host_pro.Wallet.Db.{find_customer}
use i_code_host_pro.Wallet.Ledger.{IsBook}
use i_code_host_pro.Wallet.Apply.{apply_with_client, effective_type}
use i_code_host_pro.Wallet.Apply.Books.{Keeps, apply_with_client-IsBook}
use i_code_host_pro.Store.OrderLifecycle.{OrderStatus, is_pending_payment}
use i_code_host_pro.Checkout.Types.{Order, Database}
use i_code_host_pro.Checkout.Gate.{find_order, renewal_charge_gate, check_subscription}
use i_code_host_pro.Checkout.Confirm.{confirm_order_within}
use i_code_host_pro.Checkout.Confirm.Laws.{confirm_order_within-wallet}
use i_code_host_pro.Checkout.WalletPay.{
  Env, User, net_debited, debit_input, debit_order, confirm_and_report, report, pay_context,
  pay_pending, balance_of, card_gate, charge_gate, replay_payment, pay_locked,
  pay_order_with_wallet, usd,
}

pub card_gate_reads : (preview : Order) (db : Database) → (card_gate preview db).1 ≡ db
unfolding card_gate
card_gate_reads preview db = ground arith

pub charge_gate_reads :
    (required : Bool) (row : Order) (db : Database) → (charge_gate required row db).1 ≡ db
unfolding charge_gate renewal_charge_gate check_subscription
charge_gate_reads false row db = refl
charge_gate_reads true row db = ground arith

-- What other processes commit meanwhile keeps the books; while an order is confirmed they leave the
-- wallets alone.
pub record KeepsBooks (opening : ℕ → ℤ) (env : Env) : Type 0 where
  pub wallet : Keeps (IsBook opening) env.wallet_env
  pub before_lock :
      (db : Database) → IsBook opening db.wallet → IsBook opening (env.before_lock db).wallet
  pub before_cas : (db : Database) → (env.confirm_env.before_cas db).wallet ≡ db.wallet

module _ (opening : ℕ → ℤ) (env : Env) (keeps : KeepsBooks opening env) where
  debit_order-IsBook :
      (preview row : Order) (db : Database)
      → IsBook opening db.wallet
      → IsBook opening (debit_order env preview row db).1.wallet
  unfolding debit_order debit_input effective_type
  debit_order-IsBook preview row db book =
      let net = net_debited preview.customer_id preview.id db.wallet.transactions in
      let input = debit_input env preview row.amount_ttc_cents in
      let (r, w) = apply_with_client env.wallet_env preview.customer_id input debit db.wallet in
      elim (Bool-cases (leb_ℤ row.amount_ttc_cents net)) [
        | inl covered ↦ rw (debit_order, covered) book
        | inr short ↦ elim (Bool-cases (ltb_ℤ (pos 0) net)) [
          | inl partial ↦ rw (debit_order, short, partial) book
          | inr fresh ↦
              let kept : IsBook opening w =
                apply_with_client-IsBook opening env.wallet_env preview.customer_id input db.wallet
                  keeps.wallet book debit refl in
              elim (Result-cases r) [
                | inl (e, fails) ↦ rw (debit_order, short, fresh, fails) kept
                | inr (a, works) ↦ rw (debit_order, short, fresh, works) kept
              ]
        ]
      ]

  confirm_and_report-IsBook :
      (user : User) (preview : Order) (db : Database)
      → IsBook opening db.wallet
      → IsBook opening (confirm_and_report env user preview db).1.wallet
  unfolding confirm_and_report report
  confirm_and_report-IsBook user preview db book =
      let ctx = pay_context env user preview in
      >>=_keeps (λ d. IsBook opening d.wallet) (confirm_order_within env.confirm_env ctx preview.id)
        (report preview) db
        (rw (confirm_order_within-wallet env.confirm_env ctx preview.id db (keeps.before_cas db))
          book)
        (λ c later h. h)

  pay_pending-IsBook :
      (user : User) (required : Bool) (preview row : Order) (db : Database)
      → IsBook opening db.wallet
      → IsBook opening (pay_pending env user required preview row db).1.wallet
  unfolding pay_pending
  pay_pending-IsBook user required preview row db book =
      let P = λ (d : Database). IsBook opening d.wallet in
      let finish = λ (u : Unit {0}). confirm_and_report env user preview in
      let debited = λ (u : Unit {0}). debit_order env preview row >>= finish in
      let charged = λ (u : Unit {0}). charge_gate required row >>= debited in
      >>=_keeps P (card_gate preview) charged db (rw (card_gate_reads preview db) book) (λ a d₁ h₁.
        >>=_keeps P (charge_gate required row) debited d₁
          (rw (charge_gate_reads required row d₁) h₁)
          (λ b d₂ h₂.
            >>=_keeps P (debit_order env preview row) finish d₂
              (debit_order-IsBook preview row d₂ h₂)
              (λ c d₃ h₃. confirm_and_report-IsBook user preview d₃ h₃)))

  replay_payment_reads :
      (preview : Order) (status : OrderStatus) (amount balance : ℤ) (currency : Text)
      (db : Database)
      → (replay_payment env preview status amount currency balance db).1 ≡ db
  unfolding replay_payment
  replay_payment_reads preview status amount balance currency db = ground arith

  pay_locked-IsBook :
      (user : User) (required : Bool) (preview : Order) (db : Database)
      → IsBook opening db.wallet
      → IsBook opening (pay_locked env user required preview db).1.wallet
  unfolding pay_locked
  pay_locked-IsBook user required preview db book =
      elim (Option-cases (find_order preview.id db.orders)) [
        | inl missing ↦ rw (missing, pay_locked) book
        | inr (row, found) ↦ elim (Bool-cases (is_pending_payment row.status)) [
          | inl pending ↦
              rw (found, pay_locked, pending) (pay_pending-IsBook user required preview row db book)
          | inr closed ↦
              rw
                (
                  found,
                  pay_locked,
                  closed,
                  replay_payment_reads preview row.status row.amount_ttc_cents
                      (balance_of preview.customer_id db) row.currency db,
                )
                book
        ]
      ]

  transaction-IsBook :
      (user : User) (required : Bool) (preview : Order) (db : Database)
      → IsBook opening db.wallet
      → IsBook opening
          (transaction env.confirm_env.before_cas
            (pay_locked env user required preview)
            (env.before_lock db)).1.wallet
  unfolding transaction
  transaction-IsBook user required preview db book =
      let seen = env.before_lock db in
      let kept = keeps.before_lock db book in
      elim (Outcome-cases (pay_locked env user required preview seen).0) [
        | inl (e, fails) ↦ rw (fails, transaction, keeps.before_cas seen) kept
        | inr (r, works) ↦
            rw (works, transaction) (pay_locked-IsBook user required preview seen kept)
      ]

  -- However a payment by the balance ends, each balance is still what the ledger says, none is below
  -- zero, and no key or reference of a transaction is used twice, if this holds before, if what other
  -- processes commit meanwhile keeps it, and if they leave the wallets alone while the order is
  -- confirmed.
  pub pay_order_with_wallet-IsBook :
      (order_id : ℕ) (user : User) (required : Bool) (db : Database)
      → IsBook opening db.wallet
      → IsBook opening (pay_order_with_wallet env order_id user required db).1.wallet
  unfolding pay_order_with_wallet transaction
  pay_order_with_wallet-IsBook order_id user required db book =
      elim (Bool-cases env.is_wallet_enabled) [
        | inr closed ↦ rw (pay_order_with_wallet, closed) book
        | inl open_now ↦ elim (Option-cases (find_order order_id db.orders)) [
          | inl missing ↦ rw (pay_order_with_wallet, open_now, missing) book
          | inr (preview, found) ↦
              elim (Option-cases (find_customer preview.customer_id db.wallet.customers)) [
                | inl nobody ↦ rw (pay_order_with_wallet, open_now, found, nobody) book
                | inr (c, there) ↦ elim (Bool-cases (opt_eq c.user_id (some user.id))) [
                  | inr other ↦ rw (pay_order_with_wallet, open_now, found, there, other) book
                  | inl own ↦ elim (Bool-cases (text_eq preview.currency usd)) [
                    | inr foreign ↦
                        rw (pay_order_with_wallet, open_now, found, there, own, foreign) book
                    | inl same ↦ elim (Bool-cases (is_pending_payment preview.status)) [
                      | inl pending ↦
                          rw (pay_order_with_wallet, open_now, found, there, own, same, pending)
                            (transaction-IsBook user required preview db book)
                      | inr settled ↦
                          rw
                            (
                              pay_order_with_wallet,
                              open_now,
                              found,
                              there,
                              own,
                              same,
                              settled,
                              replay_payment_reads preview preview.status preview.amount_ttc_cents
                                  c.wallet_balance_cents preview.currency db,
                            )
                            book
                    ]
                  ]
                ]
              ]
        ]
      ]
