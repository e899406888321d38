-- ===== src/Payments/CardPayments/Separate.antt =====
-- apps/api/src/payments/card-payments.service.ts: a top-up keeps the books of the wallet, an order
-- that is paid by card leaves the wallet alone, and a refusal after the order's compare-and-set
-- leaves the order paid.
use i_code_host_pro.Prelude.{
  ℕ, ◌≡◌, refl, ◌∙◌, Bool, true, false, arith, Option-cases, Bool-cases, inl, inr,
}
use i_code_host_pro.Prelude.Actions.{Outcome-cases}
use i_code_host_pro.Payments.RefundAccounting.{CardPayment}
use i_code_host_pro.Checkout.Types.{Database}
use i_code_host_pro.Checkout.Gate.{find_order}
use i_code_host_pro.Checkout.Confirm.{confirm_order_within}
use i_code_host_pro.Checkout.Confirm.Laws.{confirm_order_within-wallet}
use i_code_host_pro.Payments.CardPayments.{
  Env, ConfirmPaidInput, cas_live, mark_settled, review, is_caught, settle_order_of, card_context,
  settle_order_in_tx, is_nil, mismatches,
}

pub cas_live_frame :
    (id : ℕ) (f : CardPayment → CardPayment) (db : Database)
    → let db' = (cas_live id f db).1 in (db'.wallet ≡ db.wallet) × (db'.orders ≡ db.orders)
unfolding cas_live
cas_live_frame id f db = ground arith

module _ (env : Env) (input : ConfirmPaidInput) (row : CardPayment) where
  mark_settled-wallet :
      (order_id : ℕ) (flag : Bool) (db : Database)
      → (mark_settled env input row order_id flag db).1.wallet ≡ db.wallet
  unfolding mark_settled
  mark_settled-wallet order_id true db = (cas_live_frame row.id _ db).0
  mark_settled-wallet order_id false db = (cas_live_frame row.id _ db).0

  settle_order_of-wallet :
      (order_id : ℕ) (db : Database)
      → ((d : Database) → (env.checkout_env.before_cas d).wallet ≡ d.wallet)
      → (settle_order_of env input row order_id db).1.wallet ≡ db.wallet
  unfolding settle_order_of review
  settle_order_of-wallet order_id db keeps =
      let (r, d) = confirm_order_within env.checkout_env (card_context row) order_id db in
      let same : d.wallet ≡ db.wallet =
        confirm_order_within-wallet env.checkout_env (card_context row) order_id db (keeps db) in
      elim (Outcome-cases r) [
        | inr (c, works) ↦
            rw (works, settle_order_of) (mark_settled-wallet order_id c.already_confirmed d ∙ same)
        | inl (e, fails) ↦ elim (Bool-cases (is_caught e)) [
          | inl caught ↦ rw (fails, settle_order_of, caught) same
          | inr thrown ↦ rw (fails, settle_order_of, thrown) same
        ]
      ]

  -- The settlement of an order by card neither credits nor debits a wallet, however it ends, if
  -- other processes leave the wallets alone while it runs.
  pub settle_order_in_tx-wallet :
      (db : Database)
      → ((d : Database) → (env.checkout_env.before_cas d).wallet ≡ d.wallet)
      → (settle_order_in_tx env input row db).1.wallet ≡ db.wallet
  unfolding settle_order_in_tx review
  settle_order_in_tx-wallet db keeps = elim (Option-cases row.order_id) [
    | inl nothing ↦ rw (nothing, settle_order_in_tx) refl
    | inr (o, linked) ↦ elim (Option-cases (find_order o db.orders)) [
      | inl missing ↦ rw (linked, settle_order_in_tx, missing) refl
      | inr (order, there) ↦ elim (Bool-cases (is_nil (mismatches order row))) [
        | inl agrees ↦
            rw (linked, settle_order_in_tx, there, agrees) (settle_order_of-wallet o db keeps)
        | inr disagrees ↦ rw (linked, settle_order_in_tx, there, disagrees) refl
      ]
    ]
  ]
