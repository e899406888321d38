-- ===== src/Checkout/Confirm/Laws.antt =====
-- apps/api/src/store/checkout.service.ts: what a confirmation leaves of the order, of its invoices
-- and of the other tables.
use i_code_host_pro.Prelude.{
  ℕ, ◌≡◌, refl, sym, ◌∙◌, Bool, true, false, Option, none, some, List, [], ◌∷◌, map, arith,
  Option-cases, inl, inr, if◌then◌else◌, is_some, All,
}
use i_code_host_pro.Prelude.Actions.{>>=_keeps}
use i_code_host_pro.Store.OrderLifecycle.{OrderStatus, active, is_unpaid}
use i_code_host_pro.Checkout.Types.{
  Order, Database, ConfirmPaidContext, Env, Invoice, SubscriptionAction,
}
use i_code_host_pro.Checkout.Gate.{find_order}
use i_code_host_pro.Store.BillingCycle.{Date}
use i_code_host_pro.Checkout.Confirm.{
  complete_order, lost_race, confirm_pending, confirm_order_within, finish_order,
}
use i_code_host_pro.Checkout.Settle.{
  update_orders, settle_order, activate_renewal, open_subscription, open_rights, link_subscription,
  create_service, open_c3, is_paid, pay_invoice, link_invoice, of_order, linked_subscription,
  link_invoices, user_of,
}

pub find_order-id : (id : ℕ) (o : Order) (os : List Order) → find_order id os ≡ some o → o.id ≡ id
unfolding find_order
find_order-id id o [] h = absurd (cc)
find_order-id id o (x ∷ os) h = ground (arith, find_order-id id o os)

pub find-update_orders :
    (id : ℕ) (p : OrderStatus → Bool) (f : Order → Order) (o : Order) (os : List Order)
    → ((x : Order) → (f x).id ≡ x.id)
    → find_order id os ≡ some o
    → find_order id (update_orders id p f os) ≡ some (if p o.status then f o else o)
unfolding find_order update_orders
find-update_orders id p f o [] keeps h = absurd (cc)
find-update_orders id p f o (x ∷ os) keeps h =
    ground (arith, keeps x, find-update_orders id p f o os keeps)

-- No invoice of the order is unpaid.
abbrev pub HasNoUnpaid : ℕ → List Invoice → Type 0
HasNoUnpaid id = All (λ i. of_order id i ≡ true → is_unpaid i.status ≡ false)

HasNoUnpaid-map :
    (id : ℕ) (f : Invoice → Invoice) (is : List Invoice)
    → ((i : Invoice)
        → (of_order id (f i) ≡ of_order id i)
          × (is_unpaid i.status ≡ false → is_unpaid (f i).status ≡ false))
    → HasNoUnpaid id is
    → HasNoUnpaid id (map f is)
HasNoUnpaid-map id f [] keeps h = tt
HasNoUnpaid-map id f (i ∷ is) keeps h =
    (λ mine. (keeps i).1 (h.0 (sym (keeps i).0 ∙ mine)), HasNoUnpaid-map id f is keeps h.1)

HasNoUnpaid-pay :
    (now : Date) (id : ℕ) (is : List Invoice) → HasNoUnpaid id (map (pay_invoice now id) is)
unfolding pay_invoice
HasNoUnpaid-pay now id [] = tt
HasNoUnpaid-pay now id (i ∷ is) = (ground arith, HasNoUnpaid-pay now id is)

HasNoUnpaid-link :
    (id j : ℕ) (sub : Option ℕ) (is : List Invoice)
    → HasNoUnpaid id is
    → HasNoUnpaid id (link_invoices j sub is)
unfolding link_invoice
HasNoUnpaid-link id j none is h = h
HasNoUnpaid-link id j (some sub) is h =
    HasNoUnpaid-map id (link_invoice j sub) is (λ i. ground arith) h

module _ (env : Env) (ctx : ConfirmPaidContext) (order : Order) (user_id : Option ℕ) where
  -- What `open_rights` makes of the orders.
  abbrev rights_orders : Database → List Order
  rights_orders db =
      if is_some order.renews_order_id
      then update_orders order.id is_paid (λ o. record o { status = active }) db.orders
      else db.orders

  open_subscription_frame :
      (db : Database)
      → let db' = (open_subscription env order user_id db).1 in
        (db'.orders ≡ db.orders)
        × (db'.invoices ≡ db.invoices)
        × (db'.wallet ≡ db.wallet)
        × (db'.cards ≡ db.cards)
  unfolding open_subscription
  open_subscription_frame db = ground arith

  open_rights_frame :
      (db : Database)
      → let db' = (open_rights env ctx order user_id db).1 in
        (db'.orders ≡ rights_orders db)
        × (db'.invoices ≡ db.invoices)
        × (db'.wallet ≡ db.wallet)
        × (db'.cards ≡ db.cards)
  unfolding open_rights activate_renewal
  open_rights_frame db = ground (arith, open_subscription_frame db)

  open_c3_frame :
      (sub : Option ℕ) (db : Database)
      → let db' = (open_c3 env order user_id sub db).1 in
        (db'.orders ≡ db.orders)
        × (db'.invoices ≡ db.invoices)
        × (db'.wallet ≡ db.wallet)
        × (db'.cards ≡ db.cards)
        × (db'.subscriptions ≡ db.subscriptions)
  unfolding open_c3 create_service
  open_c3_frame sub db = ground arith

  link_subscription_frame :
      (opened : Option (SubscriptionAction × ℕ)) (db : Database)
      → let db' = link_subscription order opened db in
        (db'.orders ≡ db.orders)
        × (db'.wallet ≡ db.wallet)
        × (db'.cards ≡ db.cards)
        × (db'.subscriptions ≡ db.subscriptions)
        × ((id : ℕ) → HasNoUnpaid id db.invoices → HasNoUnpaid id db'.invoices)
  unfolding link_subscription
  link_subscription_frame opened db = (
    refl,
    refl,
    refl,
    refl,
    λ id. HasNoUnpaid-link id order.id (linked_subscription order opened db) db.invoices,
  )

  finish_order_frame :
      (opened : Option (SubscriptionAction × ℕ)) (db : Database)
      → let db' = (finish_order env order user_id opened db).1 in
        (db'.orders ≡ db.orders)
        × (db'.wallet ≡ db.wallet)
        × (db'.cards ≡ db.cards)
        × (db'.subscriptions ≡ db.subscriptions)
        × ((id : ℕ) → HasNoUnpaid id db.invoices → HasNoUnpaid id db'.invoices)
  unfolding finish_order
  finish_order_frame opened db = ground (
    arith,
    link_subscription_frame opened db,
    open_c3_frame (elim opened [ none ↦ none | some (_, id) ↦ some id ])
        (link_subscription order opened db),
  )

  -- The orders after the compare-and-set and what follows it, with the wallet and the cards of `db`,
  -- and no invoice of the order left unpaid.
  abbrev IsSettledFrom : Database → Database → Type 0
  IsSettledFrom db db' =
      (db'.orders ≡ rights_orders (settle_order env ctx order db))
      × (db'.wallet ≡ db.wallet)
      × (db'.cards ≡ db.cards)
      × HasNoUnpaid order.id db'.invoices

  open_rights-IsSettledFrom :
      (db : Database)
      → IsSettledFrom db (open_rights env ctx order user_id (settle_order env ctx order db)).1
  unfolding settle_order
  open_rights-IsSettledFrom db =
      let (orders, invoices, wallet, cards) = open_rights_frame (settle_order env ctx order db) in
      (orders, wallet, cards, rw invoices (HasNoUnpaid-pay env.now order.id db.invoices))

  -- Whether it ends well or is refused, the orders are those that the compare-and-set and the
  -- renewal's step wrote.
  pub complete_order_frame :
      (db : Database) → IsSettledFrom db (complete_order env ctx order user_id db).1
  unfolding complete_order
  complete_order_frame db =
      >>=_keeps (IsSettledFrom db) (open_rights env ctx order user_id)
        (finish_order env order user_id) (settle_order env ctx order db)
        (open_rights-IsSettledFrom db)
        (λ opened later h.
          let (orders, wallet, cards, subscriptions, invoices) = finish_order_frame opened later in
          (orders ∙ h.0, wallet ∙ h.1, cards ∙ h.2, invoices order.id h.3))

pub confirm_order_within-cards :
    (env : Env) (ctx : ConfirmPaidContext) (id : ℕ) (db : Database)
    → (env.before_cas db).cards ≡ db.cards
    → (confirm_order_within env ctx id db).1.cards ≡ db.cards
unfolding confirm_order_within confirm_pending lost_race
confirm_order_within-cards env ctx id db h = elim (Option-cases (find_order id db.orders)) [
  | inl missing ↦ ground arith
  | inr (o, found) ↦
      ground (arith, (complete_order_frame env ctx o (user_of o db) (env.before_cas db)).2)
]

pub confirm_order_within-wallet :
    (env : Env) (ctx : ConfirmPaidContext) (id : ℕ) (db : Database)
    → (env.before_cas db).wallet ≡ db.wallet
    → (confirm_order_within env ctx id db).1.wallet ≡ db.wallet
unfolding confirm_order_within confirm_pending lost_race
confirm_order_within-wallet env ctx id db h = elim (Option-cases (find_order id db.orders)) [
  | inl missing ↦ ground arith
  | inr (o, found) ↦
      ground (arith, (complete_order_frame env ctx o (user_of o db) (env.before_cas db)).1)
]
