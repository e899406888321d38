-- ===== src/Store/PricingAcceptance.antt =====
-- apps/api/src/store/pricing-acceptance.ts: `evaluatePricingAcceptance`, the proof that a customer
-- accepted the conditions of an order. An identifier of a payment method is a number.
pub mod Laws
use i_code_host_pro.Prelude.{
  ℕ, ◌≡◌, Bool, true, false, not, ◌&&◌, Option, none, some, List, [], ◌∷◌, ◌++◌, if◌then◌else◌,
  opt_eq, is_some,
}
use i_code_host_pro.Prelude.Int.{ℤ, pos, ltb_ℤ, eq_ℤ}
use i_code_host_pro.Prelude.Text.{Text, text_eq}

pub data Field : Type 0 where
  total_ttc_field currency_field payment_method_field quote_key_field : Field

-- The reasons of a refusal, the first with the fields that are missing.
pub data Refusal : Type 0 where
  acceptance_required : List Field → Refusal
  total_mismatch currency_mismatch payment_method_mismatch quote_key_mismatch : Refusal

-- What the server has: a null payment method is a payment from the balance.
pub record Server : Type 0 where
  pub currency : Text
  pub payment_method_id : Option ℕ
  pub quote_key : Text

-- What the client sent: `none` is `undefined`.
pub record PricingAcceptance : Type 0 where
  pub accepted_total_ttc_cents : Option ℤ
  pub accepted_currency : Option Text
  pub accepted_payment_method_id : Option (Option ℕ)
  pub accepted_quote_key : Option Text

abbrev pub missing_if : {A : Type 0} → Option A → Field → List Field
missing_if none f = f ∷ []
missing_if (some _) f = []

unfoldable pub missing_fields : PricingAcceptance → List Field
missing_fields a =
    missing_if a.accepted_total_ttc_cents total_ttc_field
    ++ (missing_if a.accepted_currency currency_field
        ++ (missing_if a.accepted_payment_method_id payment_method_field
            ++ missing_if a.accepted_quote_key quote_key_field))

-- A field that is given must agree.
abbrev pub agrees : {A : Type 0} → (A → Bool) → Option A → Bool
agrees test none = true
agrees test (some a) = test a

-- The four comparisons, in the order of the source.
unfoldable pub compare_fields : ℤ → Server → PricingAcceptance → Option Refusal
compare_fields amount_ttc_cents server a =
    if not (agrees (λ t. eq_ℤ t amount_ttc_cents) a.accepted_total_ttc_cents)
    then some total_mismatch
    else if not (agrees (λ c. text_eq c server.currency) a.accepted_currency)
    then some currency_mismatch
    else if not (agrees (λ m. opt_eq m server.payment_method_id) a.accepted_payment_method_id)
    then some payment_method_mismatch
    else if not (agrees (λ k. text_eq k server.quote_key) a.accepted_quote_key)
    then some quote_key_mismatch
    else none

unfoldable pub evaluate_pricing_acceptance : ℤ → Server → PricingAcceptance → Option Refusal
evaluate_pricing_acceptance amount_ttc_cents server a =
    let rest = compare_fields amount_ttc_cents server a in
    if ltb_ℤ (pos 0) amount_ttc_cents
    then elim (missing_fields a) [ [] ↦ rest | f ∷ fs ↦ some (acceptance_required (f ∷ fs)) ]
    else rest
