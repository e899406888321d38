-- ===== src/Store/PricingAcceptance/Laws.antt =====
-- apps/api/src/store/pricing-acceptance.ts: which acceptances pass.
use i_code_host_pro.Prelude.{
  ◌≡◌, refl, Bool, true, not, Option, none, some, List, [], ◌∷◌, if◌then◌else◌, arith, opt_eq_iff,
  opt_eq_refl, ◌++◌, ap,
}
use i_code_host_pro.Prelude.Int.{ℤ, pos, eq_ℤ_iff, eq_ℤ_refl, ◌<ℤ◌}
use i_code_host_pro.Prelude.Text.{text_eq_iff, text_eq_refl}
use i_code_host_pro.Store.PricingAcceptance.{
  Server, PricingAcceptance, missing_fields, compare_fields, evaluate_pricing_acceptance, agrees,
  Field, Refusal, missing_if, acceptance_required, total_ttc_field, currency_field,
  payment_method_field, quote_key_field,
}

-- All four conditions were accepted as they are.
pub record IsAccepted (amount_ttc_cents : ℤ) (server : Server) (a : PricingAcceptance)
    : Type 0 where
  pub total : a.accepted_total_ttc_cents ≡ some amount_ttc_cents
  pub currency : a.accepted_currency ≡ some server.currency
  pub payment_method : a.accepted_payment_method_id ≡ some server.payment_method_id
  pub quote_key : a.accepted_quote_key ≡ some server.quote_key

-- A field that is there and agrees.
given :
    {A : Type 0} (test : A → Bool) (o : Option A) (f : Field) (v : A)
    → ((x : A) → test x ≡ true → x ≡ v)
    → missing_if o f ≡ []
    → agrees test o ≡ true
    → o ≡ some v
given test none f v same m e = absurd (cc)
given test (some x) f v same m e = ap some (same x e)

append_nil : (xs ys : List Field) → xs ++ ys ≡ [] → (xs ≡ []) × (ys ≡ [])
append_nil [] ys h = (refl, h)
append_nil (x ∷ xs) ys h = absurd (cc)

passed :
    (missing : List Field) (rest : Option Refusal)
    → elim missing [ [] ↦ rest | f ∷ fs ↦ some (acceptance_required (f ∷ fs)) ] ≡ none
    → (missing ≡ []) × (rest ≡ none)
passed [] rest h = (refl, h)
passed (f ∷ fs) rest h = absurd (cc)

compared :
    (t c m k : Bool) (a b d e : Refusal)
    → (if not t
        then some a
        else if not c
        then some b
        else if not m
        then some d
        else if not k
        then some e
        else none)
      ≡ none
    → (t ≡ true) × (c ≡ true) × (m ≡ true) × (k ≡ true)
compared t c m k a b d e h = ground arith

-- An order with a positive total passes only with all four conditions given and equal to the
-- server's: total, currency, payment method and quote key.
pub evaluate_pricing_acceptance-IsAccepted :
    (amount : ℤ) (server : Server) (a : PricingAcceptance)
    → pos 0 <ℤ amount
    → evaluate_pricing_acceptance amount server a ≡ none
    → IsAccepted amount server a
unfolding evaluate_pricing_acceptance compare_fields missing_fields
evaluate_pricing_acceptance-IsAccepted amount server a paid h =
    let (nothing, rest) =
      passed (missing_fields a) (compare_fields amount server a) (ground arith) in
    let (m₁, n₁) = append_nil _ _ nothing in
    let (m₂, n₂) = append_nil _ _ n₁ in
    let (m₃, m₄) = append_nil _ _ n₂ in
    let (e₁, e₂, e₃, e₄) = compared _ _ _ _ _ _ _ _ rest in
    record {
      total = given _ _ total_ttc_field amount (λ x. (eq_ℤ_iff x amount).0) m₁ e₁;
      currency = given _ _ currency_field server.currency (λ x. (text_eq_iff x _).0) m₂ e₂;
      payment_method =
          given _ _ payment_method_field server.payment_method_id (λ x. (opt_eq_iff x _).0) m₃ e₃;
      quote_key = given _ _ quote_key_field server.quote_key (λ x. (text_eq_iff x _).0) m₄ e₄;
    }

-- An order passes with all four conditions accepted as the server has them, paid or free.
evaluate_pricing_acceptance_complete :
    (amount : ℤ) (server : Server) (a : PricingAcceptance)
    → IsAccepted amount server a
    → evaluate_pricing_acceptance amount server a ≡ none
unfolding evaluate_pricing_acceptance compare_fields missing_fields
evaluate_pricing_acceptance_complete amount server a h =
    let t = h.total in
    let c = h.currency in
    let m = h.payment_method in
    let k = h.quote_key in
    ground (
      arith,
      eq_ℤ_refl amount,
      text_eq_refl server.currency,
      opt_eq_refl server.payment_method_id,
      text_eq_refl server.quote_key,
    )
