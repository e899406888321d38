-- ===== src/Payments/CardPayments/Paid.antt =====
-- apps/api/src/payments/card-payments.service.ts: a confirmation that settles a payment found it live
-- and leaves it paid.
use i_code_host_pro.Prelude.{
  ℕ, ◌≡◌, ◌≤◌, refl, sym, ap, subst, ◌∙◌, Bool, true, false, some, arith, Option-cases, Bool-cases,
  inl, inr, ◌==◌,
}
use i_code_host_pro.Prelude.Int.{ℤ}
use i_code_host_pro.Prelude.Text.{text_eq, to_upper_case}
use i_code_host_pro.Prelude.Actions.{done, Outcome-cases, transaction}
use i_code_host_pro.Wallet.Types.{Result-cases, credit}
use i_code_host_pro.Wallet.Apply.{apply_with_client}
use i_code_host_pro.Wallet.Db.{find_customer}
use i_code_host_pro.Payments.RefundAccounting.{
  CardPayment, CardPaymentKind, topup, order_payment, find_payment, update_payment,
}
use i_code_host_pro.Payments.RefundAccounting.Laws.{find-update_payment}
use i_code_host_pro.Checkout.Types.{Database}
use i_code_host_pro.Checkout.Gate.{find_order}
use i_code_host_pro.Checkout.Confirm.{confirm_order_within}
use i_code_host_pro.Payments.CardPayments.{
  Env, ConfirmPaidInput, ConfirmOutcome, credited, settled, is_live, is_terminal, is_nil, problems,
  mismatches, locate, cas_live, mark_credited, credit_topup, credit_input, settle_topup_in_tx,
  review, mark_settled, settle_order_of, card_context, settle_order_in_tx, settle_kind, settle_live,
  confirm_row, confirm_in_tx, confirm_paid, credit_row, succeed_row, outcome_of,
}
use i_code_host_pro.Payments.CardPayments.Advance.{status_rank, find_payment-id}
use i_code_host_pro.Payments.CardPayments.Confirmed.{HasUniqueKeys, locate-find_payment}

-- Whether a confirmation says that it settled the payment of a reference.
unfoldable pub pays : ℕ → ConfirmOutcome → Bool
pays ref (credited r balance) = r == ref
pays ref (settled r order_id) = r == ref
pays ref _ = false

-- The payment has the reference, and its row is paid now.
abbrev pub IsPaid : ℕ → CardPayment → Database → Type 0
IsPaid ref row db =
    (row.reference ≡ ref)
    × ((p : CardPayment) × (find_payment row.id db.cards.payments ≡ some p)
        × (3 ≤ status_rank p.status))

cas_live_won :
    (id : ℕ) (f : CardPayment → CardPayment) (db : Database)
    → ((p : CardPayment) → (f p).id ≡ p.id)
    → (cas_live id f db).0 ≡ true
    → (p : CardPayment) × (find_payment id (cas_live id f db).1.cards.payments ≡ some (f p))
unfolding cas_live
cas_live_won id f db keeps won = elim (Option-cases (find_payment id db.cards.payments)) [
  | inl missing ↦ absurd (ground arith)
  | inr (p, found) ↦ elim (Bool-cases (is_live p.status)) [
    | inr closed ↦ absurd (ground arith)
    | inl live ↦
        let same = find_payment-id id p db.cards.payments found in
        (
          p,
          rw (found, cas_live, live)
              (subst (λ i. find_payment i (update_payment (f p) db.cards.payments) ≡ some (f p))
                same
                (find-update_payment p (f p) db.cards.payments (keeps p)
                  (subst (λ i. find_payment i db.cards.payments ≡ some p) (sym same) found))),
        )
  ]
]

module _ (env : Env) (input : ConfirmPaidInput) (ref : ℕ) (row : CardPayment) where
  mark_credited-IsPaid :
      (balance : ℤ) (db : Database) (c : ConfirmOutcome)
      → (mark_credited env input row balance db).0 ≡ done c
      → pays ref c ≡ true
      → IsPaid ref row (mark_credited env input row balance db).1
  unfolding mark_credited pays status_rank
  mark_credited-IsPaid balance db c h paid =
      let f = credit_row env input row.id db in
      elim (Bool-cases (cas_live row.id f db).0) [
        | inr lost ↦ absurd (ground arith)
        | inl won ↦
            let (p, there) = cas_live_won row.id f db (λ x. refl) won in
            (ground arith, (f p, there, ground arith))
      ]

  mark_settled-IsPaid :
      (order_id : ℕ) (flag : Bool) (db : Database) (c : ConfirmOutcome)
      → (mark_settled env input row order_id flag db).0 ≡ done c
      → pays ref c ≡ true
      → IsPaid ref row (mark_settled env input row order_id flag db).1
  unfolding mark_settled pays status_rank
  mark_settled-IsPaid order_id true db c h paid = absurd (ground arith)
  mark_settled-IsPaid order_id false db c h paid =
      let f = succeed_row env input in
      elim (Bool-cases (cas_live row.id f db).0) [
        | inr lost ↦ absurd (ground arith)
        | inl won ↦
            let (p, there) = cas_live_won row.id f db (λ x. refl) won in
            (ground arith, (f p, there, ground arith))
      ]

  credit_topup-IsPaid :
      (db : Database) (c : ConfirmOutcome)
      → (credit_topup env input row db).0 ≡ done c
      → pays ref c ≡ true
      → IsPaid ref row (credit_topup env input row db).1
  unfolding credit_topup
  credit_topup-IsPaid db c h paid =
      let (r, w) =
        apply_with_client env.wallet_env row.customer_id (credit_input env row) credit db.wallet in
      elim (Result-cases r) [
        | inl (e, fails) ↦ absurd (ground arith)
        | inr (a, works) ↦
            rw (works, credit_topup)
              (mark_credited-IsPaid a.balance_cents (record db { wallet = w }) c (ground arith)
                paid)
      ]

  settle_topup_in_tx-IsPaid :
      (db : Database) (c : ConfirmOutcome)
      → (settle_topup_in_tx env input row db).0 ≡ done c
      → pays ref c ≡ true
      → IsPaid ref row (settle_topup_in_tx env input row db).1
  unfolding settle_topup_in_tx pays
  settle_topup_in_tx-IsPaid db c h paid =
      elim (Option-cases (find_customer row.customer_id db.wallet.customers)) [
        | inl missing ↦ absurd (ground arith)
        | inr (u, there) ↦
            elim (Bool-cases
              (text_eq (to_upper_case u.wallet_currency) (to_upper_case row.currency))) [
                | inr other ↦ absurd (ground arith)
                | inl same ↦
                    rw (there, settle_topup_in_tx, same)
                      (credit_topup-IsPaid db c (ground arith) paid)
              ]
      ]

  settle_order_of-IsPaid :
      (order_id : ℕ) (db : Database) (c : ConfirmOutcome)
      → (settle_order_of env input row order_id db).0 ≡ done c
      → pays ref c ≡ true
      → IsPaid ref row (settle_order_of env input row order_id db).1
  unfolding settle_order_of review pays
  settle_order_of-IsPaid order_id db c h paid =
      let (r, d) = confirm_order_within env.checkout_env (card_context row) order_id db in
      elim (Outcome-cases r) [
        | inl (e, fails) ↦ absurd (ground arith)
        | inr (a, works) ↦
            rw (works, settle_order_of)
              (mark_settled-IsPaid order_id a.already_confirmed d c (ground arith) paid)
      ]

  settle_order_in_tx-IsPaid :
      (db : Database) (c : ConfirmOutcome)
      → (settle_order_in_tx env input row db).0 ≡ done c
      → pays ref c ≡ true
      → IsPaid ref row (settle_order_in_tx env input row db).1
  unfolding settle_order_in_tx review pays
  settle_order_in_tx-IsPaid db c h paid = elim (Option-cases row.order_id) [
    | inl nothing ↦ absurd (ground arith)
    | inr (o, linked) ↦ elim (Option-cases (find_order o db.orders)) [
      | inl missing ↦ absurd (ground arith)
      | inr (order, there) ↦ elim (Bool-cases (is_nil (mismatches order row))) [
        | inr disagrees ↦ absurd (ground arith)
        | inl agrees ↦
            rw (linked, settle_order_in_tx, there, agrees)
              (settle_order_of-IsPaid o db c (ground arith) paid)
      ]
    ]
  ]

  settle_kind-IsPaid :
      (kind : CardPaymentKind) (db : Database) (c : ConfirmOutcome)
      → (settle_kind kind env input row db).0 ≡ done c
      → pays ref c ≡ true
      → IsPaid ref row (settle_kind kind env input row db).1
  unfolding settle_kind
  settle_kind-IsPaid topup = settle_topup_in_tx-IsPaid
  settle_kind-IsPaid order_payment = settle_order_in_tx-IsPaid

  -- Only a live payment is settled.
  pub confirm_row-IsPaid :
      (db : Database) (c : ConfirmOutcome)
      → (confirm_row env input row db).0 ≡ done c
      → pays ref c ≡ true
      → (is_live row.status ≡ true) × IsPaid ref row (confirm_row env input row db).1
  unfolding confirm_row settle_live pays
  confirm_row-IsPaid db c h paid = elim (Bool-cases (input.provider_code == row.provider_code)) [
    | inr foreign ↦ absurd (ground arith)
    | inl own ↦ elim (Bool-cases (is_terminal row.status)) [
      | inl over ↦ absurd (ground arith)
      | inr goes_on ↦ elim (Bool-cases (is_live row.status)) [
        | inr given_up ↦ absurd (ground arith)
        | inl live ↦ elim (Bool-cases (is_nil (problems input row))) [
          | inr disagrees ↦ absurd (ground arith)
          | inl agrees ↦ (
            live,
            rw (confirm_row, own, goes_on, live, settle_live, agrees)
                (settle_kind-IsPaid row.kind db c (ground arith) paid),
          )
        ]
      ]
    ]
  ]

-- A committed confirmation that says that it settled the payment of a reference found a row of that
-- reference that was live, and leaves the row of its id paid.
pub confirm_paid-IsPaid :
    (env : Env) (input : ConfirmPaidInput) (ref : ℕ) (db : Database) (c : ConfirmOutcome)
    → HasUniqueKeys db.cards.payments
    → outcome_of env input db ≡ some c
    → pays ref c ≡ true
    → (row : CardPayment) × (find_payment row.id db.cards.payments ≡ some row)
      × (is_live row.status ≡ true)
      × IsPaid ref row (confirm_paid env input db).1
unfolding outcome_of confirm_paid transaction confirm_in_tx pays
confirm_paid-IsPaid env input ref db c unique h paid =
    elim (Outcome-cases (confirm_in_tx env input db).0) [
      | inl (e, fails) ↦ absurd (ground arith)
      | inr (a, works) ↦
          let same : a ≡ c = ground arith in
          let after : (confirm_paid env input db).1 ≡ (confirm_in_tx env input db).1 =
            rw (works, confirm_paid, transaction) refl in
          elim (Option-cases (locate input.session_ref input.payment_ref db.cards.payments)) [
            | inl missing ↦ absurd (ground arith)
            | inr (row, found) ↦
                let run : confirm_in_tx env input db ≡ confirm_row env input row db =
                  rw (found, confirm_in_tx) refl in
                let (live, is_paid) =
                  confirm_row-IsPaid env input ref row db a (ap (λ x. x.0) (sym run) ∙ works)
                    (ap (pays ref) same ∙ paid) in
                (
                  row,
                  locate-find_payment input.session_ref input.payment_ref row db.cards.payments
                      unique found,
                  live,
                  subst (IsPaid ref row) (sym (after ∙ ap (λ x. x.1) run)) is_paid,
                )
          ]
    ]
