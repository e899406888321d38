-- ===== src/Payments/Tests.antt =====
-- apps/api/src/payments: the theorems applied at concrete tables.
use i_code_host_pro.Prelude.{◌≡◌, refl, false, none, some, [], ◌∷◌, ◌↔◌, ◌++◌}
use i_code_host_pro.Prelude.Int.{pos, ◌-ℤ◌}
use i_code_host_pro.Payments.RefundAccounting.{
  CardPayment, Refund, RefundObservation, Tables, succeeded, refund_succeeded, sync_refunded_cents,
  topup, external_card,
}
use i_code_host_pro.Payments.RefundAccounting.Laws.{sync_refunded_cents_twice}
use i_code_host_pro.Prelude.Text.{Text, codes, text_eq, trim, trim_start, is_space}
use i_code_host_pro.Payments.StripeSignature.{
  Environment, build_signed_payload, parse_signature_header, read_part, read_parts, split_comma,
  split_equals, verify_stripe_signature,
}
use i_code_host_pro.Payments.StripeSignature.Laws.{IsSigned, verify_stripe_signature-IsSigned}
use i_code_host_pro.Payments.StripeUsability.{StripeSettingFingerprint, usable, stripe_usability}
use i_code_host_pro.Payments.StripeUsability.Laws.{IsUsable, stripe_usability_iff}

abbrev pay : CardPayment
pay = record {
  id = 1;
  reference = 11;
  customer_id = 4;
  order_id = none;
  kind = topup;
  status = succeeded;
  amount_cents = pos 1000;
  currency = codes "usd";
  provider_code = 1;
  merchant_account = 2;
  livemode = some false;
  provider_session_ref = some 21;
  provider_payment_ref = some 22;
  wallet_transaction_id = none;
  refunded_cents = pos 200;
  pending_refund_cents = pos 0;
  provider_call_state = none;
  dispatch_owner = none;
  dispatch_claimed_at = none;
  failure_code = none;
  failure_message = none;
  paid_at = none;
  disputed_at = none;
  intervention_needed = false;
  intervention_reason = none;
}

abbrev made : Refund
made = record {
  id = 60;
  order_id = none;
  invoice_id = none;
  card_payment_id = some 1;
  kind = external_card;
  status = refund_succeeded;
  amount_cents = pos 300;
  currency = codes "usd";
  reason = none;
  issue_credit_note = false;
  idempotency_key = codes "key-0001";
  wallet_transaction_id = none;
  credit_note_invoice_id = none;
  provider_ref = some 70;
}

-- The refund that was made here is observed too, and one that was made at the provider.
abbrev seen_made : RefundObservation
seen_made = record {
  card_payment_id = 1;
  provider_ref = 70;
  amount_cents = some (pos 300);
  is_acknowledged = false;
}

abbrev seen_other : RefundObservation
seen_other = record seen_made { provider_ref = 71; amount_cents = some (pos 50) }

abbrev tables : Tables
tables = record {
  payments = pay ∷ [];
  refunds = made ∷ [];
  observations = seen_made ∷ seen_other ∷ [];
}

sync_refunded_cents_twice_example :
    let t = (sync_refunded_cents 1 (some (pos 900)) tables).0 in
    (sync_refunded_cents 1 (some (pos 900)) t).0 ≡ t
sync_refunded_cents_twice_example = sync_refunded_cents_twice 1 (some (pos 900)) tables

abbrev settings : StripeSettingFingerprint
settings = record {
  environment = codes "test";
  secret_key_enc = some (codes "enc");
  merchant_account = none;
  last_check_account = some (codes "acct_1");
}

stripe_usability_iff_example :
    (stripe_usability settings none ≡ usable (codes "acct_1")) ↔ IsUsable settings (codes "acct_1")
stripe_usability_iff_example = stripe_usability_iff settings (codes "acct_1")

-- A signature that only joins the secret and the text.
abbrev environment : Environment
environment = record {
  parse_int = λ t. some (pos 100);
  decimal = λ n. codes "100";
  hmac = λ secret payload. secret ++ payload;
}

abbrev header : Text
header = codes "t=100, v0=x,v1=old,v1=k100.{}"

webhook-passes :
    verify_stripe_signature environment (codes "{}") (some header) (codes "k") (pos 150) none ≡ none
unfolding verify_stripe_signature parse_signature_header read_parts read_part split_comma
    split_equals build_signed_payload text_eq trim trim_start is_space ◌-ℤ◌
webhook-passes = refl

verify_stripe_signature-IsSigned_example :
    IsSigned environment (codes "{}") header (codes "k") (pos 150) (pos 300)
verify_stripe_signature-IsSigned_example =
    verify_stripe_signature-IsSigned environment (codes "{}") (some header) (codes "k") (pos 150)
      none webhook-passes
