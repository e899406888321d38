-- ===== src/Payments/StripeSignature.antt =====
-- apps/api/src/payments/stripe-signature.ts: `verifyStripeSignature`. The HMAC is an argument, `hmac`,
-- on the secret and the signed text; the body is a text.
pub mod Laws
use i_code_host_pro.Prelude.{
  ℕ, suc, ◌+◌, ◌*◌, ◌-◌, ◌/◌, ◌%◌, ◌≡◌, Bool, true, false, not, ◌&&◌, ◌||◌, Option, none, some,
  List, [], ◌∷◌, ◌++◌, any, ltb, leb, ◌==◌, if◌then◌else◌, map, or_else,
}
use i_code_host_pro.Prelude.Int.{ℤ, pos, ltb_ℤ, ◌-ℤ◌}
use i_code_host_pro.Prelude.Text.{Text, codes, text_eq, trim, is_empty}

abbrev pub default_tolerance_seconds : ℤ
default_tolerance_seconds = pos 300

pub data Reason : Type 0 where
  header_absent secret_not_configured header_malformed : Reason
  out_of_tolerance signature_invalid : Reason

-- `none` is `ok: true`.
abbrev pub StripeSignatureResult : Type 0
StripeSignatureResult = Option Reason

-- `split(',')`: the first part, and the others.
unfoldable pub split_comma : Text → Text × List Text
split_comma [] = ([], [])
split_comma (c ∷ s) =
    let (first, rest) = split_comma s in if c == b',' then ([], first ∷ rest) else (c ∷ first, rest)

-- The text before the first `=` and the text after it.
unfoldable pub split_equals : Text → Option (Text × Text)
split_equals [] = none
split_equals (c ∷ s) =
    let rest = split_equals s in
    if c == b'='
    then some ([], s)
    else elim rest [ none ↦ none | some (key, value) ↦ some (c ∷ key, value) ]

pub record SignatureHeader : Type 0 where
  pub timestamp : Option ℤ
  pub signatures : List Text

-- One turn of the loop; `parse_int` is `Number.parseInt(value, 10)`, where `none` is `NaN`.
unfoldable pub read_part : (Text → Option ℤ) → Text → SignatureHeader → SignatureHeader
read_part parse_int part h = elim (split_equals part) [
  | none ↦ h
  | some (key, value) ↦
      if text_eq key (codes "t")
      then record h { timestamp = parse_int value }
      else if text_eq key (codes "v1")
      then record h { signatures = h.signatures ++ (value ∷ []) }
      else h
]

unfoldable pub read_parts : (Text → Option ℤ) → List Text → SignatureHeader → SignatureHeader
read_parts parse_int [] h = h
read_parts parse_int (p ∷ ps) h = read_parts parse_int ps (read_part parse_int (trim p) h)

unfoldable pub parse_signature_header : (Text → Option ℤ) → Text → SignatureHeader
parse_signature_header parse_int header =
    let (first, rest) = split_comma header in
    read_parts parse_int (first ∷ rest) (record { timestamp = none; signatures = [] })

-- What the verification takes from outside: `parseInt`, the decimal text of a number, and the HMAC.
pub record Environment : Type 0 where
  pub parse_int : Text → Option ℤ
  pub decimal : ℤ → Text
  pub hmac : Text → Text → Text

unfoldable pub build_signed_payload : Environment → ℤ → Text → Text
build_signed_payload env timestamp raw_body = env.decimal timestamp ++ (b'.' ∷ raw_body)

abbrev pub distance : ℤ → ℤ → ℤ
distance a b = if ltb_ℤ a b then b -ℤ a else a -ℤ b

unfoldable pub verify_stripe_signature :
    Environment → Text → Option Text → Text → ℤ → Option ℤ → StripeSignatureResult
verify_stripe_signature env raw_body header secret now_sec tolerance_sec =
    let tolerance = or_else tolerance_sec default_tolerance_seconds in
    if is_empty (trim (or_else header []))
    then some header_absent
    else if is_empty (trim secret)
    then some secret_not_configured
    else let parsed = parse_signature_header env.parse_int (or_else header []) in
      elim parsed.timestamp [
        | none ↦ some header_malformed
        | some timestamp ↦
            if is_empty_list parsed.signatures
            then some header_malformed
            else if ltb_ℤ tolerance (distance now_sec timestamp)
            then some out_of_tolerance
            else let expected = env.hmac secret (build_signed_payload env timestamp raw_body) in
              if any (λ sig. text_eq sig expected) parsed.signatures
              then none
              else some signature_invalid
      ]
  where
    is_empty_list : List Text → Bool
    is_empty_list [] = true
    is_empty_list (x ∷ xs) = false
