-- ===== src/Payments/CardPayments/Books.antt =====
-- apps/api/src/payments/card-payments.service.ts: however a confirmation ends, the books of the
-- wallet are kept.
use i_code_host_pro.Prelude.{ℕ, ◌≡◌, refl, Option-cases, Bool-cases, inl, inr, ◌==◌}
use i_code_host_pro.Prelude.Int.{ℤ}
use i_code_host_pro.Prelude.Text.{text_eq, to_upper_case}
use i_code_host_pro.Prelude.Actions.{Outcome-cases, transaction}
use i_code_host_pro.Wallet.Types.{Result-cases, credit}
use i_code_host_pro.Wallet.Db.{find_customer}
use i_code_host_pro.Wallet.Ledger.{IsBook}
use i_code_host_pro.Wallet.Apply.{apply_with_client, effective_type}
use i_code_host_pro.Wallet.Apply.Books.{Keeps, apply_with_client-IsBook}
use i_code_host_pro.Payments.RefundAccounting.{CardPayment, CardPaymentKind, topup, order_payment}
use i_code_host_pro.Checkout.Types.{Database}
use i_code_host_pro.Payments.CardPayments.{
  Env, ConfirmPaidInput, mark_credited, credit_topup, credit_input, credit_row, settle_topup_in_tx,
  settle_kind, settle_live, confirm_row, confirm_in_tx, confirm_paid, locate, is_live, is_terminal,
  is_nil, problems,
}
use i_code_host_pro.Payments.CardPayments.Separate.{cas_live_frame, settle_order_in_tx-wallet}

-- What other processes commit meanwhile keeps the books; while an order is confirmed they leave the
-- wallets alone.
pub record KeepsBooks (opening : ℕ → ℤ) (env : Env) : Type 0 where
  pub wallet : Keeps (IsBook opening) env.wallet_env
  pub meanwhile :
      (db : Database) → IsBook opening db.wallet → IsBook opening (env.meanwhile db).wallet
  pub before_cas : (db : Database) → (env.checkout_env.before_cas db).wallet ≡ db.wallet

module _ (opening : ℕ → ℤ) (env : Env) (input : ConfirmPaidInput)
    (keeps : KeepsBooks opening env) where
  module _ (row : CardPayment) (db : Database) (book : IsBook opening db.wallet) where
    credit_topup-IsBook : IsBook opening (credit_topup env input row db).1.wallet
    unfolding credit_topup mark_credited credit_input effective_type
    credit_topup-IsBook =
        let (r, w) =
          apply_with_client env.wallet_env row.customer_id (credit_input env row) credit
            db.wallet in
        let kept : IsBook opening w =
          apply_with_client-IsBook opening env.wallet_env row.customer_id (credit_input env row)
            db.wallet keeps.wallet book credit refl in
        elim (Result-cases r) [
          | inl (e, fails) ↦ rw (fails, credit_topup) kept
          | inr (a, works) ↦
              let credited_db : Database = record db { wallet = w } in
              rw
                (
                  works,
                  credit_topup,
                  mark_credited,
                  (cas_live_frame row.id (credit_row env input row.id credited_db) credited_db).0,
                )
                kept
        ]

    settle_topup_in_tx-IsBook : IsBook opening (settle_topup_in_tx env input row db).1.wallet
    unfolding settle_topup_in_tx
    settle_topup_in_tx-IsBook =
        elim (Option-cases (find_customer row.customer_id db.wallet.customers)) [
          | inl missing ↦ rw (missing, settle_topup_in_tx) book
          | inr (u, there) ↦
              elim (Bool-cases
                (text_eq (to_upper_case u.wallet_currency) (to_upper_case row.currency))) [
                  | inr other ↦ rw (there, settle_topup_in_tx, other) book
                  | inl same ↦ rw (there, settle_topup_in_tx, same) credit_topup-IsBook
                ]
        ]

    settle_kind-IsBook :
        (kind : CardPaymentKind) → IsBook opening (settle_kind kind env input row db).1.wallet
    unfolding settle_kind
    settle_kind-IsBook topup = settle_topup_in_tx-IsBook
    settle_kind-IsBook order_payment =
        rw (settle_order_in_tx-wallet env input row db keeps.before_cas) book

    confirm_row-IsBook : IsBook opening (confirm_row env input row db).1.wallet
    unfolding confirm_row settle_live
    confirm_row-IsBook = elim (Bool-cases (input.provider_code == row.provider_code)) [
      | inr foreign ↦ rw (confirm_row, foreign) book
      | inl own ↦ elim (Bool-cases (is_terminal row.status)) [
        | inl over ↦ rw (confirm_row, own, over) book
        | inr goes_on ↦ elim (Bool-cases (is_live row.status)) [
          | inr given_up ↦ rw (confirm_row, own, goes_on, given_up) book
          | inl live ↦ elim (Bool-cases (is_nil (problems input row))) [
            | inr disagrees ↦ rw (confirm_row, own, goes_on, live, settle_live, disagrees) book
            | inl agrees ↦
                rw (confirm_row, own, goes_on, live, settle_live, agrees)
                  (settle_kind-IsBook row.kind)
          ]
        ]
      ]
    ]

  confirm_in_tx-IsBook :
      (db : Database)
      → IsBook opening db.wallet
      → IsBook opening (confirm_in_tx env input db).1.wallet
  unfolding confirm_in_tx
  confirm_in_tx-IsBook db book =
      elim (Option-cases (locate input.session_ref input.payment_ref db.cards.payments)) [
        | inl missing ↦ rw (missing, confirm_in_tx) book
        | inr (row, found) ↦ rw (found, confirm_in_tx) (confirm_row-IsBook row db book)
      ]

  -- However a confirmation ends, each balance is still what the ledger says, none is below zero, and
  -- no key or reference of a transaction is used twice, if this holds before, if what other processes
  -- commit meanwhile keeps it, and if they leave the wallets alone while an order is confirmed.
  pub confirm_paid-IsBook :
      (db : Database)
      → IsBook opening db.wallet
      → IsBook opening (confirm_paid env input db).1.wallet
  unfolding confirm_paid transaction
  confirm_paid-IsBook db book = elim (Outcome-cases (confirm_in_tx env input db).0) [
    | inl (e, fails) ↦ rw (fails, confirm_paid, transaction) (keeps.meanwhile db book)
    | inr (c, works) ↦ rw (works, confirm_paid, transaction) (confirm_in_tx-IsBook db book)
  ]
