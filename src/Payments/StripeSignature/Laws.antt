-- ===== src/Payments/StripeSignature/Laws.antt =====
-- apps/api/src/payments/stripe-signature.ts: a webhook that passes was signed with the secret.
use i_code_host_pro.Prelude.{
  ◌≡◌, true, false, Option, none, some, List, [], ◌∷◌, any, arith, Option-cases, inl, inr, or_else,
  Bool-cases, sym,
}
use i_code_host_pro.Prelude.Int.{ℤ, ◌≤ℤ◌}
use i_code_host_pro.Prelude.Text.{Text, text_eq, text_eq_iff, trim, is_empty}
use mathlib.Core.List.{Memᴰ}
use i_code_host_pro.Payments.StripeSignature.{
  default_tolerance_seconds, parse_signature_header, Environment, build_signed_payload, distance,
  verify_stripe_signature,
}

-- The header gives an instant within the tolerance, and one of its signatures is the HMAC of the
-- instant and the body under the secret, which is not blank.
pub record IsSigned (env : Environment) (body header secret : Text) (now tolerance : ℤ)
    : Type 0 where
  pub timestamp : ℤ
  pub dated : (parse_signature_header env.parse_int header).timestamp ≡ some timestamp
  pub recent : distance now timestamp ≤ℤ tolerance
  pub signed :
      Memᴰ
        (env.hmac secret (build_signed_payload env timestamp body))
        (parse_signature_header env.parse_int header).signatures
  pub configured : is_empty (trim secret) ≡ false

any-Mem : (t : Text) (xs : List Text) → any (λ x. text_eq x t) xs ≡ true → Memᴰ t xs
any-Mem t [] h = absurd (cc)
any-Mem t (x ∷ xs) h = elim (Bool-cases (text_eq x t)) [
  | inl same ↦ Memᴰ.head (sym ((text_eq_iff x t).0 same))
  | inr differs ↦ Memᴰ.tail (any-Mem t xs (ground arith))
]

-- A webhook that passes has a header whose instant is within the tolerance of the clock, 300 seconds
-- if none is given, and one of whose signatures is the HMAC, under a secret that is not blank, of that
-- instant and the body.
pub verify_stripe_signature-IsSigned :
    (env : Environment) (body : Text) (header : Option Text) (secret : Text) (now : ℤ)
    (tolerance : Option ℤ)
    → verify_stripe_signature env body header secret now tolerance ≡ none
    → IsSigned env body (or_else header []) secret now (or_else tolerance default_tolerance_seconds)
unfolding verify_stripe_signature
verify_stripe_signature-IsSigned env body header secret now tolerance h =
    let parsed = parse_signature_header env.parse_int (or_else header []) in
    elim (Option-cases parsed.timestamp) [
      | inl undated ↦ absurd (ground arith)
      | inr (t, e) ↦ record {
        timestamp = t;
        dated = e;
        recent = ground arith;
        signed =
            any-Mem (env.hmac secret (build_signed_payload env t body)) parsed.signatures
              (ground arith);
        configured = ground arith;
      }
    ]
