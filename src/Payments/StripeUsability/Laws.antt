-- ===== src/Payments/StripeUsability/Laws.antt =====
-- apps/api/src/payments/stripe-usability.ts: exactly which settings are usable for operations.
use i_code_host_pro.Prelude.{
  ◌≡◌, ◌↔◌, ◌⊎◌, inl, inr, refl, ap, ◌∙◌, true, false, Option, none, some, arith, Bool-cases,
}
use i_code_host_pro.Prelude.Text.{Text, codes, text_eq, text_eq_iff, text_eq_refl, is_empty}
use i_code_host_pro.Payments.StripeUsability.{
  StripeSettingFingerprint, usable, is_given, accounts_differ, stripe_usability,
}

-- The settings are of the test environment, with a secret key and a verified account, and no other
-- account is declared.
pub record IsUsable (row : StripeSettingFingerprint) (account : Text) : Type 0 where
  pub test : row.environment ≡ codes "test"
  pub secret : is_given row.secret_key_enc ≡ true
  pub verified : row.last_check_account ≡ some account
  pub given : is_empty account ≡ false
  pub declared : (is_given row.merchant_account ≡ false) ⊎ (row.merchant_account ≡ some account)

agree :
    (declared : Option Text) (account : Text)
    → is_empty account ≡ false
    → accounts_differ declared (some account) ≡ false
    → (is_given declared ≡ false) ⊎ (declared ≡ some account)
unfolding accounts_differ
agree none account given same = inl refl
agree (some d) account given same = elim (Bool-cases (text_eq d account)) [
  | inl equal ↦ inr (ap some ((text_eq_iff d account).0 equal))
  | inr differs ↦ inl (ground arith)
]

agree_back :
    (declared : Option Text) (account : Text)
    → (is_given declared ≡ false) ⊎ (declared ≡ some account)
    → accounts_differ declared (some account) ≡ false
unfolding accounts_differ
agree_back none account h = refl
agree_back (some d) account h = ground (arith, text_eq_refl account)

-- Settings are usable for operations, under an account, exactly when they are of the test environment,
-- have a secret key, that account was verified, and no other account is declared.
pub stripe_usability_iff :
    (row : StripeSettingFingerprint) (account : Text)
    → (stripe_usability row none ≡ usable account) ↔ IsUsable row account
unfolding stripe_usability
stripe_usability_iff row account = (there row.last_check_account refl, back)
  where
    there :
        (checked : Option Text)
        → row.last_check_account ≡ checked
        → stripe_usability row none ≡ usable account
        → IsUsable row account
    there none e h = absurd (ground arith)
    there (some v) e h =
        let same : v ≡ account = ground arith in
        let given : is_empty account ≡ false = ground arith in
        record {
          test = (text_eq_iff row.environment (codes "test")).0 (ground arith);
          secret = ground arith;
          verified = e ∙ ap some same;
          given = given;
          declared = agree row.merchant_account account given (ground arith);
        }

    back : IsUsable row account → stripe_usability row none ≡ usable account
    back u =
        let t = (text_eq_iff row.environment (codes "test")).1 u.test in
        let s = u.secret in
        let v = u.verified in
        let g = u.given in
        let d = agree_back row.merchant_account account u.declared in ground arith
