-- ===== src/Checkout/Tests.antt =====
-- apps/api/src/store/checkout.service.ts: the theorems applied at a renewal of a monthly order.
use i_code_host_pro.Prelude.{
  ◌≡◌, ◌↔◌, refl, true, false, none, some, [], ◌∷◌, is_some, if◌then◌else◌,
}
use i_code_host_pro.Prelude.Int.{pos}
use i_code_host_pro.Prelude.Text.{codes}
use i_code_host_pro.Prelude.Actions.{done, transaction}
use i_code_host_pro.Wallet.Types.{Customer}
use i_code_host_pro.Store.OrderLifecycle.{
  OrderStatus, pending_payment, active, paid, invoice_unpaid,
}
use i_code_host_pro.Store.BillingCycle.{Date, monthly, add_billing_cycle}
use i_code_host_pro.Checkout.Types
use i_code_host_pro.Checkout.Types.{
  Order, Invoice, Subscription, Database, admin_transfer, ConfirmPaidContext, ConfirmPaidResult,
  renewal_revoked, Env,
}
use i_code_host_pro.Checkout.Gate.{
  find_order, ancestors, resolve_subscription_for_order, check_subscription, renewal_charge_gate,
  consent_gate,
}
use i_code_host_pro.Checkout.Confirm.{
  finish_order, complete_order, confirm_pending, confirm_order_within, confirm_order_in_tx,
  confirm_order_paid,
}
use i_code_host_pro.Checkout.Settle.{
  is_settled, is_recurring, confirm_note, arm_now, pay_order, is_open, update_orders, pay_invoice,
  link_invoice, user_of, settle_order, activate_renewal, open_rights, linked_subscription,
  link_subscription, open_c3,
}
use i_code_host_pro.Checkout.Confirm.Paid.{confirm_order_paid_twice, confirm_order_paid_armed}
use i_code_host_pro.Checkout.Confirm.Consent.{IsChargeable, confirm_order_paid-IsChargeable}

abbrev today : Date
today = record { year = 2026; month = 0; day = 31; ms_of_day = 0 }

abbrev pub bob : Customer
bob = record {
  id = 1;
  email = codes "b@c.d";
  name = codes "Bob";
  user_id = some 2;
  wallet_balance_cents = pos 900;
  wallet_currency = codes "USD";
}

abbrev first_order : Order
first_order = record {
  id = 3;
  customer_id = 1;
  customer_email = codes "b@c.d";
  product_id = 7;
  product_name = codes "Start";
  pack_id = some 8;
  status = active;
  billing_cycle = monthly;
  currency = codes "USD";
  amount_ttc_cents = pos 900;
  requested_subdomain = none;
  requested_domain_id = none;
  paid_at = some today;
  next_billing_date = none;
  auto_renew = true;
  renewal_consent_at = some today;
  renews_order_id = none;
}

abbrev renewal : Order
renewal = record first_order {
  id = 4;
  status = pending_payment;
  paid_at = none;
  renews_order_id = some 3;
}

abbrev sub : Subscription
sub = record { id = 11; user_id = 2; product_id = 7; status = Types.active; order_id = some 3 }

abbrev due : Invoice
due = record {
  id = 40;
  order_id = some 4;
  status = invoice_unpaid;
  paid_at = none;
  subscription_id = none;
}

abbrev pub shop : Database
shop = record {
  orders = renewal ∷ first_order ∷ [];
  invoices = due ∷ [];
  history = [];
  subscriptions = sub ∷ [];
  products = [];
  trackings = [];
  services = [];
  wallet = record { users = []; customers = bob ∷ []; transactions = [] };
  cards = record { payments = []; refunds = []; observations = [] };
}

abbrev pub alone : Env
alone = record {
  now = today;
  is_hosting_c3_enabled = false;
  new_subscription_id = 50;
  new_service_id = 51;
  before_cas = λ db. db;
}

abbrev by_transfer : ConfirmPaidContext
by_transfer = record { source = admin_transfer; actor_email = none; reference = some 99 }

abbrev receipt : ConfirmPaidResult
receipt = record {
  order_id = 4;
  status = active;
  already_confirmed = false;
  subscription_action = none;
}

abbrev after : Database
after = (confirm_order_paid alone by_transfer true 4 shop).1

renewal-confirmed : confirm_order_paid alone by_transfer true 4 shop ≡ (done receipt, after)
unfolding find_order ancestors resolve_subscription_for_order check_subscription renewal_charge_gate
    consent_gate confirm_note arm_now pay_order is_open update_orders pay_invoice link_invoice
    user_of settle_order activate_renewal open_rights linked_subscription link_subscription open_c3
    finish_order complete_order confirm_pending confirm_order_within confirm_order_in_tx
    confirm_order_paid transaction
renewal-confirmed = refl

confirm_order_paid_twice_example :
    (status : OrderStatus) × (is_settled status ≡ true)
    × (confirm_order_paid alone by_transfer false 4 after ≡ (
      done (record {
        order_id = 4;
        status = status;
        already_confirmed = true;
        subscription_action = none;
      }),
      after,
    ))
confirm_order_paid_twice_example =
    confirm_order_paid_twice alone alone by_transfer by_transfer true 4 shop after receipt
      renewal-confirmed

confirm_order_paid_armed_example :
    (read : Order) × (o : Order) × (find_order 4 shop.orders ≡ some read)
    × (find_order 4 after.orders ≡ some o)
    × (o.status ≡ (if is_some read.renews_order_id then active else paid))
    × (is_recurring read.billing_cycle ≡ true
        → ((o.auto_renew ≡ true) ↔ (
            (is_some read.renewal_consent_at ≡ true)
            × (is_some read.renews_order_id ≡ true → read.auto_renew ≡ true)))
          × (o.next_billing_date
              ≡ (if o.auto_renew then add_billing_cycle today read.billing_cycle else none)))
confirm_order_paid_armed_example =
    confirm_order_paid_armed alone by_transfer true 4 shop after receipt renewal-confirmed refl

confirm_order_paid-IsChargeable_example :
    (o : Order) × (find_order 4 shop.orders ≡ some o) × IsChargeable shop o
confirm_order_paid-IsChargeable_example =
    confirm_order_paid-IsChargeable alone by_transfer 4 shop receipt after renewal-confirmed
