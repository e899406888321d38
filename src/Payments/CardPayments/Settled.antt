-- ===== src/Payments/CardPayments/Settled.antt =====
-- apps/api/src/payments/card-payments.service.ts: a confirmation advances the payment that it
-- finds, and only one that was live.
use i_code_host_pro.Prelude.Int.{ℤ}
use i_code_host_pro.Prelude.{
  ℕ, ◌≡◌, refl, sym, subst, ◌≤◌, Bool, true, false, some, arith, Option-cases, Bool-cases, inl, inr,
}
use i_code_host_pro.Prelude.Actions.{Outcome-cases}
use i_code_host_pro.Prelude.Int.{ℤ}
use i_code_host_pro.Wallet.Types.{Result-cases, credit}
use i_code_host_pro.Wallet.Apply.{apply_with_client}
use i_code_host_pro.Wallet.Db.{find_customer}
use i_code_host_pro.Prelude.Text.{text_eq, to_upper_case}
use i_code_host_pro.Checkout.Gate.{find_order}
use i_code_host_pro.Payments.RefundAccounting.{
  CardPayment, Reason, find_payment, settlement_refused, no_order, order_missing, order_incoherent,
}
use i_code_host_pro.Checkout.Types.{Database}
use i_code_host_pro.Checkout.Confirm.{confirm_order_within}
use i_code_host_pro.Checkout.Confirm.Laws.{confirm_order_within-cards}
use i_code_host_pro.Payments.CardPayments.{
  Env, ConfirmPaidInput, is_live, cas_live, put_payment, mark_credited, credit_topup, credit_input,
  settle_topup_in_tx, review, mark_settled, settle_order_of, card_context, settle_order_in_tx,
  is_caught, is_nil, mismatches,
}
use i_code_host_pro.Payments.CardPayments.Advance.{
  status_rank, RowAdvance, IsAdvance, IsAdvance-refl, update_payment-IsAdvance, find_payment-id,
}

-- Other processes leave the card payments to events of their own.
pub record KeepsCards (env : Env) : Type 0 where
  pub meanwhile : (db : Database) → (env.meanwhile db).cards ≡ db.cards
  pub before_cas : (db : Database) → (env.checkout_env.before_cas db).cards ≡ db.cards

cas_live-IsAdvance :
    (id : ℕ) (f : CardPayment → CardPayment) (db : Database)
    → ((p : CardPayment) → is_live p.status ≡ true → RowAdvance p (f p))
    → IsAdvance db.cards.payments (cas_live id f db).1.cards.payments
unfolding cas_live
cas_live-IsAdvance id f db h = elim (Option-cases (find_payment id db.cards.payments)) [
  | inl missing ↦ rw (missing, cas_live) (IsAdvance-refl db.cards.payments)
  | inr (p, found) ↦ elim (Bool-cases (is_live p.status)) [
    | inr closed ↦ rw (found, cas_live, closed) (IsAdvance-refl db.cards.payments)
    | inl live ↦
        rw (found, cas_live, live)
          (update_payment-IsAdvance id p (f p) db.cards.payments found
            (find_payment-id id p db.cards.payments found) (h p live))
  ]
]

-- A live payment that is written with any other rank from 3 on.
live_rank :
    (p p' : CardPayment)
    → is_live p.status ≡ true
    → 3 ≤ status_rank p'.status
    → status_rank p.status ≤ status_rank p'.status
unfolding status_rank
live_rank p p' live h = ground arith

module _ (env : Env) (input : ConfirmPaidInput) (row : CardPayment) where
  mark_credited-IsAdvance :
      (balance : ℤ) (db : Database)
      → IsAdvance db.cards.payments (mark_credited env input row balance db).1.cards.payments
  unfolding mark_credited status_rank
  mark_credited-IsAdvance balance db =
      cas_live-IsAdvance row.id _ db (λ p live. record {
        id = refl;
        reference = refl;
        amount = refl;
        rank = ground (arith, live);
      })

  mark_settled-IsAdvance :
      (order_id : ℕ) (flag : Bool) (db : Database)
      → IsAdvance db.cards.payments (mark_settled env input row order_id flag db).1.cards.payments
  unfolding mark_settled status_rank
  mark_settled-IsAdvance order_id true db =
      cas_live-IsAdvance row.id _ db
        (λ p live. record { id = refl; reference = refl; amount = refl; rank = omega arith })
  mark_settled-IsAdvance order_id false db =
      cas_live-IsAdvance row.id _ db (λ p live. record {
        id = refl;
        reference = refl;
        amount = refl;
        rank = ground (arith, live);
      })

  -- The row that was locked is written back.
  pub put_payment-IsAdvance :
      (row' : CardPayment) (db : Database)
      → find_payment row.id db.cards.payments ≡ some row
      → RowAdvance row row'
      → IsAdvance db.cards.payments (put_payment row' db).cards.payments
  put_payment-IsAdvance row' db found h =
      update_payment-IsAdvance row.id row row' db.cards.payments found refl h

  review-IsAdvance :
      (reason : Reason) (db : Database)
      → find_payment row.id db.cards.payments ≡ some row
      → is_live row.status ≡ true
      → IsAdvance db.cards.payments (review env row reason db).1.cards.payments
  unfolding review status_rank
  review-IsAdvance reason db found live =
      put_payment-IsAdvance _ db found
        (record { id = refl; reference = refl; amount = refl; rank = ground arith })

  credit_topup-IsAdvance :
      (db : Database) → IsAdvance db.cards.payments (credit_topup env input row db).1.cards.payments
  unfolding credit_topup
  credit_topup-IsAdvance db =
      let (r, w) =
        apply_with_client env.wallet_env row.customer_id (credit_input env row) credit db.wallet in
      elim (Result-cases r) [
        | inl (e, fails) ↦ rw (fails, credit_topup) (IsAdvance-refl db.cards.payments)
        | inr (a, works) ↦
            rw (works, credit_topup)
              (mark_credited-IsAdvance a.balance_cents (record db { wallet = w }))
      ]

  pub settle_topup_in_tx-IsAdvance :
      (db : Database)
      → find_payment row.id db.cards.payments ≡ some row
      → is_live row.status ≡ true
      → IsAdvance db.cards.payments (settle_topup_in_tx env input row db).1.cards.payments
  unfolding settle_topup_in_tx status_rank
  settle_topup_in_tx-IsAdvance db found live =
      elim (Option-cases (find_customer row.customer_id db.wallet.customers)) [
        | inl missing ↦ rw (missing, settle_topup_in_tx) (IsAdvance-refl db.cards.payments)
        | inr (c, there) ↦
            elim (Bool-cases
              (text_eq (to_upper_case c.wallet_currency) (to_upper_case row.currency))) [
                | inl same ↦ rw (there, settle_topup_in_tx, same) (credit_topup-IsAdvance db)
                | inr other ↦
                    rw (there, settle_topup_in_tx, other)
                      (put_payment-IsAdvance _ db found (record {
                        id = refl;
                        reference = refl;
                        amount = refl;
                        rank = ground arith;
                      }))
              ]
      ]

  settle_order_of-IsAdvance :
      (order_id : ℕ) (db : Database)
      → KeepsCards env
      → find_payment row.id db.cards.payments ≡ some row
      → is_live row.status ≡ true
      → IsAdvance db.cards.payments (settle_order_of env input row order_id db).1.cards.payments
  unfolding settle_order_of
  settle_order_of-IsAdvance order_id db keeps found live =
      let (r, d) = confirm_order_within env.checkout_env (card_context row) order_id db in
      let same : d.cards ≡ db.cards =
        confirm_order_within-cards env.checkout_env (card_context row) order_id db
          (keeps.before_cas db) in
      let there : find_payment row.id d.cards.payments ≡ some row =
        subst (λ t. find_payment row.id t.payments ≡ some row) (sym same) found in
      let step : IsAdvance d.cards.payments
          (settle_order_of env input row order_id db).1.cards.payments =
        elim (Outcome-cases r) [
          | inr (c, works) ↦
              rw (works, settle_order_of) (mark_settled-IsAdvance order_id c.already_confirmed d)
          | inl (e, fails) ↦ elim (Bool-cases (is_caught e)) [
            | inl caught ↦
                rw (fails, settle_order_of, caught)
                  (review-IsAdvance settlement_refused d there live)
            | inr thrown ↦ rw (fails, settle_order_of, thrown) (IsAdvance-refl d.cards.payments)
          ]
        ] in
      subst (λ t. IsAdvance t.payments (settle_order_of env input row order_id db).1.cards.payments)
        same step

  pub settle_order_in_tx-IsAdvance :
      (db : Database)
      → KeepsCards env
      → find_payment row.id db.cards.payments ≡ some row
      → is_live row.status ≡ true
      → IsAdvance db.cards.payments (settle_order_in_tx env input row db).1.cards.payments
  unfolding settle_order_in_tx
  settle_order_in_tx-IsAdvance db keeps found live = elim (Option-cases row.order_id) [
    | inl nothing ↦ rw (nothing, settle_order_in_tx) (review-IsAdvance no_order db found live)
    | inr (o, linked) ↦ elim (Option-cases (find_order o db.orders)) [
      | inl missing ↦
          rw (linked, settle_order_in_tx, missing) (review-IsAdvance order_missing db found live)
      | inr (order, there) ↦ elim (Bool-cases (is_nil (mismatches order row))) [
        | inl agrees ↦
            rw (linked, settle_order_in_tx, there, agrees)
              (settle_order_of-IsAdvance o db keeps found live)
        | inr disagrees ↦
            rw (linked, settle_order_in_tx, there, disagrees)
              (review-IsAdvance (order_incoherent (mismatches order row)) db found live)
      ]
    ]
  ]
