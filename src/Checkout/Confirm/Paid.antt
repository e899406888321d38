-- ===== src/Checkout/Confirm/Paid.antt =====
-- apps/api/src/store/checkout.service.ts: what `confirmOrderPaid` promises.
use i_code_host_pro.Prelude.{
  ℕ, ◌≡◌, sym, ap, subst, Bool, true, false, none, some, arith, Option-cases, Bool-cases, inl, inr,
  if◌then◌else◌, is_some, ◌↔◌,
}
use i_code_host_pro.Prelude.Actions.{done, Outcome-cases, transaction}
use i_code_host_pro.Store.OrderLifecycle.{OrderStatus, is_pending_payment, active, paid}
use i_code_host_pro.Store.BillingCycle.{Date, add_billing_cycle}
use i_code_host_pro.Checkout.Types.{
  Order, Database, ConfirmPaidContext, ConfirmTxOutcome, ConfirmPaidResult, Env,
}
use i_code_host_pro.Checkout.Gate.{find_order, consent_gate}
use i_code_host_pro.Checkout.Confirm.{
  confirm_order_within, confirm_order_in_tx, confirm_order_paid, already,
}
use i_code_host_pro.Checkout.Settle.{is_settled, is_recurring, arm_now, pay_order, user_of}
use i_code_host_pro.Checkout.Confirm.Laws.{find_order-id}
use i_code_host_pro.Checkout.Confirm.Once.{
  confirmed_row, pay_order-status, consent_gate_reads, IsConfirmed, confirm_pending-IsConfirmed,
}

confirmed_row_settled :
    (now : Date) (read o : Order) → is_settled (confirmed_row now read o).status ≡ true
unfolding confirmed_row
confirmed_row_settled now read o = ground (arith, pay_order-status now read o)

armed :
    (now : Date) (read row : Order)
    → let o = confirmed_row now read row in
      (o.status ≡ (if is_some read.renews_order_id then active else paid))
      × (is_recurring read.billing_cycle ≡ true
          → ((o.auto_renew ≡ true) ↔ (
              (is_some read.renewal_consent_at ≡ true)
              × (is_some read.renews_order_id ≡ true → read.auto_renew ≡ true)))
            × (o.next_billing_date
                ≡ (if o.auto_renew then add_billing_cycle now read.billing_cycle else none)))
unfolding confirmed_row pay_order arm_now
armed now read row = ground arith

-- A confirmation that is not refused leaves the order in a state that counts as paid.
pub settled_after :
    (env : Env) (id : ℕ) (db : Database) (c : ConfirmTxOutcome) (db' : Database)
    → IsConfirmed env id db c db'
    → (o : Order) × (find_order id db'.orders ≡ some o) × (is_settled o.status ≡ true)
settled_after env id db c db' k = elim k.how [
  | inl (_, f) ↦ (f.row, f.after, f.settled)
  | inr (_, w) ↦
      (confirmed_row env.now k.read w.row, w.after, confirmed_row_settled env.now k.read w.row)
]

module _ (env : Env) (ctx : ConfirmPaidContext) (id : ℕ) where
  found_settled :
      (read : Order) (db : Database)
      → find_order id db.orders ≡ some read
      → is_settled read.status ≡ true
      → confirm_order_within env ctx id db ≡ (done (already read (user_of read db)), db)
  unfolding confirm_order_within
  found_settled read db found settled = rw (found, confirm_order_within) (ground arith)

  pub confirm_order_within-IsConfirmed :
      (db : Database) (c : ConfirmTxOutcome) (db' : Database)
      → confirm_order_within env ctx id db ≡ (done c, db')
      → IsConfirmed env id db c db'
  unfolding confirm_order_within
  confirm_order_within-IsConfirmed db c db' h = elim (Option-cases (find_order id db.orders)) [
    | inl missing ↦ absurd (ground arith)
    | inr (read, found) ↦
        let same = find_order-id id read db.orders found in
        elim (Bool-cases (is_pending_payment read.status)) [
          | inl pending ↦
              subst (λ x. IsConfirmed env x db c db') same
                (confirm_pending-IsConfirmed env ctx read (user_of read db) db c db'
                  (subst (λ x. find_order x db.orders ≡ some read) (sym same) found) (ground arith))
          | inr closed ↦ elim (Bool-cases (is_settled read.status)) [
            | inr refused_status ↦ absurd (ground arith)
            | inl settled ↦
                let (same_c, same_db) : (c ≡ already read (user_of read db)) × (db' ≡ db) =
                  (ground arith, ground arith) in
                record {
                  read = read;
                  found = found;
                  order = ap (λ x. x.order) same_c;
                  renewal = ap (λ x. x.renewal) same_c;
                  how = inl (
                    ap (λ x. x.already_confirmed) same_c,
                    record {
                      same = inl same_db;
                      row = read;
                      after = rw same_db found;
                      settled = settled;
                    },
                  );
                }
          ]
        ]
  ]

  confirm_order_in_tx-IsConfirmed :
      (required : Bool) (db : Database) (c : ConfirmTxOutcome) (db' : Database)
      → confirm_order_in_tx env ctx required id db ≡ (done c, db')
      → IsConfirmed env id db c db'
  unfolding confirm_order_in_tx
  confirm_order_in_tx-IsConfirmed false db c db' h = confirm_order_within-IsConfirmed db c db' h
  confirm_order_in_tx-IsConfirmed true db c db' h = elim (Outcome-cases (consent_gate id db).0) [
    | inl (e, fails) ↦ absurd (ground arith)
    | inr (a, passes) ↦
        confirm_order_within-IsConfirmed db c db' (ground (arith, consent_gate_reads id db))
  ]

  -- How a confirmation that is not refused ends.
  pub confirm_order_paid-IsConfirmed :
      (required : Bool) (db : Database) (r : ConfirmPaidResult) (db' : Database)
      → confirm_order_paid env ctx required id db ≡ (done r, db')
      → (c : ConfirmTxOutcome) × IsConfirmed env id db c db'
        × (r.already_confirmed ≡ c.already_confirmed)
  unfolding confirm_order_paid transaction
  confirm_order_paid-IsConfirmed required db r db' h =
      elim (Outcome-cases (confirm_order_in_tx env ctx required id db).0) [
        | inl (e, fails) ↦ absurd (ground arith)
        | inr (c, passes) ↦
            (c, confirm_order_in_tx-IsConfirmed required db c db' (ground arith), ground arith)
      ]

-- A confirmation that is not refused, followed by any confirmation of the same order whose consent
-- is not asked for: the second one says that the order is paid already, and writes nothing.
pub confirm_order_paid_twice :
    (env again : Env) (ctx ctx' : ConfirmPaidContext) (required : Bool) (id : ℕ) (db db' : Database)
    (r : ConfirmPaidResult)
    → confirm_order_paid env ctx required id db ≡ (done r, db')
    → (status : OrderStatus) × (is_settled status ≡ true)
      × (confirm_order_paid again ctx' false id db' ≡ (
        done (record {
          order_id = id;
          status = status;
          already_confirmed = true;
          subscription_action = none;
        }),
        db',
      ))
unfolding confirm_order_paid confirm_order_in_tx transaction
confirm_order_paid_twice env again ctx ctx' required id db db' r h =
    let (c, confirmed, same) = confirm_order_paid-IsConfirmed env ctx id required db r db' h in
    let (o, found, settled) = settled_after env id db c db' confirmed in
    (o.status, settled, ground (arith, found_settled again ctx' id o db' found settled))

-- A confirmation that wrote a recurring order leaves it with automatic renewal if and only if the
-- order as it was read has a dated consent and, for a renewal, its automatic renewal was still on.
-- The next billing date is then one cycle after the payment, and is none otherwise.
pub confirm_order_paid_armed :
    (env : Env) (ctx : ConfirmPaidContext) (required : Bool) (id : ℕ) (db db' : Database)
    (r : ConfirmPaidResult)
    → confirm_order_paid env ctx required id db ≡ (done r, db')
    → r.already_confirmed ≡ false
    → (read : Order) × (o : Order) × (find_order id db.orders ≡ some read)
      × (find_order id db'.orders ≡ some o)
      × (o.status ≡ (if is_some read.renews_order_id then active else paid))
      × (is_recurring read.billing_cycle ≡ true
          → ((o.auto_renew ≡ true) ↔ (
              (is_some read.renewal_consent_at ≡ true)
              × (is_some read.renews_order_id ≡ true → read.auto_renew ≡ true)))
            × (o.next_billing_date
                ≡ (if o.auto_renew then add_billing_cycle env.now read.billing_cycle else none)))
confirm_order_paid_armed env ctx required id db db' r h first =
    let (c, k, same) = confirm_order_paid-IsConfirmed env ctx id required db r db' h in
    elim k.how [
      | inl (already_there, _) ↦ absurd (ground arith)
      | inr (_, w) ↦ (
        k.read,
        confirmed_row env.now k.read w.row,
        k.found,
        w.after,
        (armed env.now k.read w.row).0,
        (armed env.now k.read w.row).1,
      )
    ]
