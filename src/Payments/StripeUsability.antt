-- ===== src/Payments/StripeUsability.antt =====
-- apps/api/src/payments/stripe-usability.ts: whether the card provider may be used, for the gate of
-- the operations and for what is shown.
pub mod Laws
use i_code_host_pro.Prelude.{
  ◌≡◌, Bool, true, false, not, ◌&&◌, Option, none, some, List, [], ◌∷◌, if◌then◌else◌, or_else,
}
use i_code_host_pro.Prelude.Text.{Text, codes, text_eq, is_empty}

pub record StripeSettingFingerprint : Type 0 where
  pub environment : Text
  pub secret_key_enc : Option Text
  pub merchant_account : Option Text
  pub last_check_account : Option Text

pub data StripeUsabilityCode : Type 0 where
  not_test no_secret identity_mismatch identity_unverified : StripeUsabilityCode

-- A refusal has its code, the account that is declared and the account that was verified.
pub data StripeUsability : Type 0 where
  usable : Text → StripeUsability
  unusable : StripeUsabilityCode → Option Text → Option Text → StripeUsability

-- A text that is there and not empty, as a condition reads it.
abbrev pub is_given : Option Text → Bool
is_given none = false
is_given (some t) = not (is_empty t)

-- `opts.requireMerchantAccount !== false`
abbrev pub require_merchant : Option Bool → Bool
require_merchant none = true
require_merchant (some b) = b

-- `declared && verified && declared !== verified`
unfoldable pub accounts_differ : Option Text → Option Text → Bool
accounts_differ (some d) (some v) = is_given (some d) && is_given (some v) && not (text_eq d v)
accounts_differ _ _ = false

unfoldable pub stripe_usability : StripeSettingFingerprint → Option Bool → StripeUsability
stripe_usability row require_merchant_account =
    let declared = row.merchant_account in
    let verified = row.last_check_account in
    let required = require_merchant require_merchant_account in
    if not (text_eq row.environment (codes "test"))
    then unusable not_test declared verified
    else if not (is_given row.secret_key_enc)
    then unusable no_secret declared verified
    else if required && accounts_differ declared verified
    then unusable identity_mismatch declared verified
    else if required && not (is_given verified)
    then unusable identity_unverified declared verified
    else usable (or_else verified (or_else declared []))

-- The JSON of the allowed currencies: an array, where `none` is an element that is no string, or
-- another value.
pub data AllowedCurrencies : Type 0 where
  array : List (Option Text) → AllowedCurrencies
  no_array : AllowedCurrencies

unfoldable pub strings : List (Option Text) → List Text
strings [] = []
strings (x ∷ xs) = elim x [ none ↦ strings xs | some t ↦ t ∷ strings xs ]

unfoldable pub card_currencies_of : AllowedCurrencies → List Text → List Text
card_currencies_of no_array fallback = fallback
card_currencies_of (array xs) fallback = elim (strings xs) [ [] ↦ fallback | c ∷ cs ↦ c ∷ cs ]
