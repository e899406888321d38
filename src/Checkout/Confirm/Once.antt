-- ===== src/Checkout/Confirm/Once.antt =====
-- apps/api/src/store/checkout.service.ts: an order is confirmed once, and its renewal is armed only
-- with consent.
use i_code_host_pro.Prelude.{
  ℕ, ◌≡◌, refl, ◌∙◌, ◌⊎◌, true, false, Option, some, arith, Option-cases, Bool-cases, inl, inr,
  if◌then◌else◌, is_some, ap, subst,
}
use i_code_host_pro.Prelude.Actions.{done}
use i_code_host_pro.Store.OrderLifecycle.{is_pending_payment, active, paid}
use i_code_host_pro.Store.BillingCycle.{Date}
use i_code_host_pro.Checkout.Types.{Order, Database, ConfirmPaidContext, ConfirmTxOutcome, Env}
use i_code_host_pro.Checkout.Gate.{
  find_order, consent_gate, renewal_charge_gate, check_subscription,
}
use i_code_host_pro.Checkout.Confirm.{
  complete_order, lost_race, confirm_pending, already, finish_order,
}
use i_code_host_pro.Checkout.Settle.{is_settled, pay_order, settle_order, is_paid, is_open}
use i_code_host_pro.Checkout.Confirm.Laws.{find-update_orders, complete_order_frame, HasNoUnpaid}

-- What a confirmation makes of the row `o`, for an order that it read as `read`.
unfoldable pub confirmed_row : Date → Order → Order → Order
confirmed_row now read o =
    if is_some read.renews_order_id
    then record (pay_order now read o) { status = active }
    else pay_order now read o

pay_order-id : (now : Date) (read o : Order) → (pay_order now read o).id ≡ o.id
unfolding pay_order
pay_order-id now read o = ground arith

pub pay_order-status : (now : Date) (read o : Order) → (pay_order now read o).status ≡ paid
unfolding pay_order
pay_order-status now read o = ground arith

module _ (env : Env) (ctx : ConfirmPaidContext) (order : Order) (user_id : Option ℕ) where
  find-settle_order :
      (o : Order) (db : Database)
      → find_order order.id db.orders ≡ some o
      → is_pending_payment o.status ≡ true
      → find_order order.id (settle_order env ctx order db).orders
        ≡ some (pay_order env.now order o)
  unfolding settle_order
  find-settle_order o db h pending =
      find-update_orders order.id is_pending_payment (pay_order env.now order) o db.orders
        (pay_order-id env.now order) h
      ∙ rw pending refl

  pub find-complete_order :
      (o : Order) (db : Database)
      → find_order order.id db.orders ≡ some o
      → is_pending_payment o.status ≡ true
      → find_order order.id (complete_order env ctx order user_id db).1.orders
        ≡ some (confirmed_row env.now order o)
  unfolding confirmed_row
  find-complete_order o db h pending = rw (complete_order_frame env ctx order user_id db).0 (
      ground (
        arith,
        find-settle_order o db h pending,
        pay_order-status env.now order o,
        find-update_orders order.id is_paid (λ o. record o { status = active })
            (pay_order env.now order o) (settle_order env ctx order db).orders (λ x. refl),
      ))

pub consent_gate_reads : (id : ℕ) (db : Database) → (consent_gate id db).1 ≡ db
unfolding consent_gate renewal_charge_gate check_subscription
consent_gate_reads id db = ground arith

-- The confirmation wrote the row of the order, which other processes had left open.
pub record IsWritten (env : Env) (id : ℕ) (read : Order) (db : Database) (db' : Database)
    : Type 0 where
  pub row : Order
  pub row_found : find_order id (env.before_cas db).orders ≡ some row
  pub row_open : is_pending_payment row.status ≡ true
  pub after : find_order id db'.orders ≡ some (confirmed_row env.now read row)
  pub invoices : HasNoUnpaid id db'.invoices
  pub wallet : db'.wallet ≡ (env.before_cas db).wallet
  pub cards : db'.cards ≡ (env.before_cas db).cards

-- The confirmation found the order paid, in what other processes committed or before.
pub record IsFound (env : Env) (id : ℕ) (db : Database) (db' : Database) : Type 0 where
  pub same : (db' ≡ db) ⊎ (db' ≡ env.before_cas db)
  pub row : Order
  pub after : find_order id db'.orders ≡ some row
  pub settled : is_settled row.status ≡ true

-- How `confirm_order_within` ends well.
pub record IsConfirmed (env : Env) (id : ℕ) (db : Database) (c : ConfirmTxOutcome) (db' : Database)
    : Type 0 where
  pub read : Order
  pub found : find_order id db.orders ≡ some read
  pub order : c.order ≡ read
  pub renewal : c.renewal ≡ is_some read.renews_order_id
  pub how :
      ((c.already_confirmed ≡ true) × IsFound env id db db')
      ⊎ ((c.already_confirmed ≡ false) × IsWritten env id read db db')

module _ (env : Env) (ctx : ConfirmPaidContext) (read : Order) (user_id : Option ℕ) where
  -- The outcome of a confirmation that wrote.
  complete_order_outcome :
      (db : Database) (c : ConfirmTxOutcome)
      → (complete_order env ctx read user_id db).0 ≡ done c
      → (c.order ≡ read)
        × (c.renewal ≡ is_some read.renews_order_id)
        × (c.already_confirmed ≡ false)
  unfolding complete_order finish_order
  complete_order_outcome db c h = ground arith

  lost_race-IsFound :
      (db : Database) (c : ConfirmTxOutcome) (db' : Database)
      → lost_race read user_id (env.before_cas db) ≡ (done c, db')
      → (c ≡ already read user_id) × IsFound env read.id db db'
  unfolding lost_race
  lost_race-IsFound db c db' h =
      elim (Option-cases (find_order read.id (env.before_cas db).orders)) [
        | inl none_found ↦ absurd (ground arith)
        | inr (o, found) ↦ (
          ground arith,
          record {
            same = inr (ground arith);
            row = o;
            after = ground arith;
            settled = ground arith;
          },
        )
      ]

  completed :
      (db : Database) (c : ConfirmTxOutcome) (db' : Database)
      → find_order read.id db.orders ≡ some read
      → is_open read.id (env.before_cas db).orders ≡ true
      → complete_order env ctx read user_id (env.before_cas db) ≡ (done c, db')
      → IsConfirmed env read.id db c db'
  unfolding is_open
  completed db c db' found won h =
      elim (Option-cases (find_order read.id (env.before_cas db).orders)) [
        | inl missing ↦ absurd (ground arith)
        | inr (o, there) ↦
            let seen = env.before_cas db in
            let open_row : is_pending_payment o.status ≡ true = ground arith in
            let state = ap (λ x. x.1) h in
            let (orders, wallet, cards, invoices) =
              complete_order_frame env ctx read user_id seen in
            let (order, renewal, first) = complete_order_outcome seen c (ap (λ x. x.0) h) in
            record {
              read = read;
              found = found;
              order = order;
              renewal = renewal;
              how = inr (
                first,
                record {
                  row = o;
                  row_found = there;
                  row_open = open_row;
                  after =
                      subst (λ d. find_order read.id d.orders ≡ some (confirmed_row env.now read o))
                        state (find-complete_order env ctx read user_id o seen there open_row);
                  invoices = subst (λ d. HasNoUnpaid read.id d.invoices) state invoices;
                  wallet = subst (λ d. d.wallet ≡ seen.wallet) state wallet;
                  cards = subst (λ d. d.cards ≡ seen.cards) state cards;
                },
              );
            }
      ]

  pub confirm_pending-IsConfirmed :
      (db : Database) (c : ConfirmTxOutcome) (db' : Database)
      → find_order read.id db.orders ≡ some read
      → confirm_pending env ctx read user_id db ≡ (done c, db')
      → IsConfirmed env read.id db c db'
  unfolding confirm_pending is_open
  confirm_pending-IsConfirmed db c db' found h =
      let seen = env.before_cas db in
      elim (Bool-cases (is_open read.id seen.orders)) [
        | inl won ↦ completed db c db' found won (ground arith)
        | inr lost ↦
            let (same, again) = lost_race-IsFound db c db' (ground arith) in
            record {
              read = read;
              found = found;
              order = ap (λ x. x.order) same;
              renewal = ap (λ x. x.renewal) same;
              how = inl (ap (λ x. x.already_confirmed) same, again);
            }
      ]
