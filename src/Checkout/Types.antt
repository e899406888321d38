-- ===== src/Checkout/Types.antt =====
-- apps/api/prisma/schema.prisma and apps/api/src/store/checkout.service.ts: the rows that a
-- confirmation reads and writes, its context, its outcomes and its refusals.
use i_code_host_pro.Prelude.{ℕ, Bool, Option, List}
use i_code_host_pro.Prelude.Int.{ℤ}
use i_code_host_pro.Prelude.Text.{Text}
use i_code_host_pro.Store.OrderLifecycle.{OrderStatus, InvoiceStatus}
use i_code_host_pro.Store.BillingCycle.{BillingCycle, Date}
use i_code_host_pro.Wallet.Types.{Db, Error}
use i_code_host_pro.Payments.RefundAccounting.{Tables}

-- The columns of `Order` that a payment reads or writes.
pub record Order : Type 0 where
  pub id : ℕ
  pub customer_id : ℕ
  pub customer_email : Text
  pub product_id : ℕ
  pub product_name : Text
  pub pack_id : Option ℕ
  pub status : OrderStatus
  pub billing_cycle : BillingCycle
  pub currency : Text
  pub amount_ttc_cents : ℤ
  pub requested_subdomain : Option Text
  pub requested_domain_id : Option ℕ
  pub paid_at : Option Date
  pub next_billing_date : Option Date
  pub auto_renew : Bool
  pub renewal_consent_at : Option Date
  pub renews_order_id : Option ℕ

-- The columns of `Invoice` that a payment reads or writes.
pub record Invoice : Type 0 where
  pub id : ℕ
  pub order_id : Option ℕ
  pub status : InvoiceStatus
  pub paid_at : Option Date
  pub subscription_id : Option ℕ

-- The texts of `confirmNote` and the note of a renewal.
pub data Note : Type 0 where
  free_note simulator_note wallet_note card_note renewal_note : Note
  transfer_note : Option ℕ → Note

-- A row of `OrderStatusHistory`.
pub record StatusEntry : Type 0 where
  pub order_id : ℕ
  pub status : OrderStatus
  pub note : Note
  pub actor_email : Text

pub data SubscriptionStatus : Type 0 where
  pending active rejected suspended cancelled : SubscriptionStatus

-- A row of `Subscription`; the table is listed from the newest row.
pub record Subscription : Type 0 where
  pub id : ℕ
  pub user_id : ℕ
  pub product_id : ℕ
  pub status : SubscriptionStatus
  pub order_id : Option ℕ

-- A value of a JSON column; `json_other` is a number, an array, an object or null.
pub data Json : Type 0 where
  json_string : Text → Json
  json_boolean : Bool → Json
  json_other : Json

-- The keys of `moduleParams` that are read.
pub record ModuleParams : Type 0 where
  pub repo_url : Option Json
  pub branch : Option Json
  pub build_pack : Option Json
  pub app_name : Option Json
  pub publish_directory : Option Json
  pub is_static : Option Json

-- A column of type Float: `finite m e` is m / 2 ^ e.
pub data Float : Type 0 where
  finite : ℤ → ℕ → Float
  not_finite : Float

pub record HostingPack : Type 0 where
  pub id : ℕ
  pub name : Text
  pub ram_mb : ℤ
  pub cpu_cores : Float
  pub storage_limit : Option ℤ
  pub max_apps : Option ℤ
  pub deployment_module_id : Option ℕ

pub record C3CatalogProduct : Type 0 where
  pub id : ℕ
  pub provision_module_id : Option ℕ
  pub module_params : ModuleParams
  pub pack : Option HostingPack

-- `ReservationPayload`, with the keys that `buildC3Intent` gives.
pub record Intent : Type 0 where
  pub product_id : ℕ
  pub pack_id : Option ℕ
  pub provision_module_id : Option ℕ
  pub billing_cycle : BillingCycle
  pub currency : Text
  pub amount_ttc_cents : ℤ
  pub requested_subdomain : Option Text
  pub requested_domain_id : Option ℕ
  pub repo_url : Option Text
  pub branch : Option Text
  pub build_pack : Option Text
  pub app_name : Option Text
  pub publish_directory : Option Text
  pub is_static : Option Bool

-- A row of `OrderProvisioningTracking`; the order's id is its primary key.
pub record Tracking : Type 0 where
  pub order_id : ℕ
  pub intent : Intent

pub record HostingServiceSnapshots : Type 0 where
  pub max_apps_snapshot : Option ℤ
  pub ram_mb_snapshot : ℤ
  pub cpu_cores_snapshot : Float
  pub storage_limit_gb_snapshot : Option ℤ
  pub pack_name_snapshot : Option Text
  pub product_name_snapshot : Option Text

-- A row of `HostingService`; a confirmation makes it in the state PROVISIONING.
pub record HostingService : Type 0 where
  pub id : ℕ
  pub user_id : ℕ
  pub order_id : Option ℕ
  pub subscription_id : Option ℕ
  pub product_id : Option ℕ
  pub pack_id : Option ℕ
  pub deployment_module_id : Option ℕ
  pub snapshots : HostingServiceSnapshots

-- The tables. `wallet` has the customers and the wallet transactions, `cards` the card payments
-- and the refunds.
pub record Database : Type 0 where
  pub orders : List Order
  pub invoices : List Invoice
  pub history : List StatusEntry
  pub subscriptions : List Subscription
  pub products : List C3CatalogProduct
  pub trackings : List Tracking
  pub services : List HostingService
  pub wallet : Db
  pub cards : Tables

pub data ConfirmSource : Type 0 where
  free admin_transfer card_simulator wallet card : ConfirmSource

-- `ConfirmPaidContext`, without what only the audit and the mail read.
pub record ConfirmPaidContext : Type 0 where
  pub source : ConfirmSource
  pub actor_email : Option Text
  pub reference : Option ℕ

pub data SubscriptionAction : Type 0 where
  subscription_created subscription_upgraded : SubscriptionAction

pub record ConfirmTxOutcome : Type 0 where
  pub already_confirmed : Bool
  pub order : Order
  pub subscription_action : Option SubscriptionAction
  pub user_id : Option ℕ
  pub renewal : Bool

pub record ConfirmPaidResult : Type 0 where
  pub order_id : ℕ
  pub status : OrderStatus
  pub already_confirmed : Bool
  pub subscription_action : Option SubscriptionAction

-- The errors that are thrown, with what their text tells.
pub data Refusal : Type 0 where
  order_not_found : Refusal
  renewal_revoked not_in_chain no_subscription product_changed : Refusal
  subscription_inactive : Option SubscriptionStatus → Refusal
  not_confirmable : OrderStatus → Refusal
  unstable no_account subscription_exists pack_missing : Refusal
  snapshot_invalid : Refusal
  unique_violation : Refusal
  wallet_disabled : Refusal
  currency_unsupported : Refusal
  cannot_pay : OrderStatus → Refusal
  card_payment_in_progress : ℕ → Refusal
  payment_unresolved : ℕ → Refusal
  partial_debit : Refusal
  wallet_refused : Error → Refusal

-- What a confirmation takes from outside: the clock, the flag `HOSTING_C3_ENABLED`, the generated keys, and what
-- other processes commit between its read of the order and its write.
pub record Env : Type 0 where
  pub now : Date
  pub is_hosting_c3_enabled : Bool
  pub new_subscription_id : ℕ
  pub new_service_id : ℕ
  pub before_cas : Database → Database
