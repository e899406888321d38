-- ===== src/Store/CreditLines.antt =====
-- apps/api/src/store/refund.service.ts: `allocateCreditLines`, the lines of the credit note of a
-- refund.
pub mod Laws
mod Tests
use i_code_host_pro.Prelude.{
  ℕ, ◌+◌, ◌*◌, ◌-◌, ◌/◌, ◌≡◌, ◌&&◌, Bool, true, false, Option, none, some, List, [], ◌∷◌, find,
  length, if◌then◌else◌, ◌==◌, opt_eq,
}
use i_code_host_pro.Prelude.Int.{ℤ, pos, negsuc, ◌+ℤ◌, ◌-ℤ◌, leb_ℤ, ltb_ℤ, eq_ℤ, pos_part}
use i_code_host_pro.Prelude.Text.{Text}

-- `CreditNoteSourceLine`; the tax rate is only copied, and is a number of its own scale.
pub record CreditNoteSourceLine : Type 0 where
  pub id : ℕ
  pub label : Text
  pub tax_rate_percent : ℕ
  pub tax_amount_cents : ℤ
  pub total_ttc_cents : ℤ
  pub sort_order : ℤ

-- `CreditNoteLineDraft`, whose quantity is 1.
pub record CreditNoteLineDraft : Type 0 where
  pub source_line_id : ℕ
  pub label : Text
  pub unit_price_ht_cents : ℤ
  pub tax_rate_percent : ℕ
  pub tax_amount_cents : ℤ
  pub total_ttc_cents : ℤ
  pub sort_order : ℕ

-- What earlier credit notes took of a source line.
pub record Credited : Type 0 where
  pub id : ℕ
  pub ttc : ℤ
  pub tax : ℤ

-- `[...sourceLines].sort`, which is stable: a line is put before the first of a greater order.
unfoldable pub insert_line :
    CreditNoteSourceLine → List CreditNoteSourceLine → List CreditNoteSourceLine
insert_line line [] = line ∷ []
insert_line line (l ∷ ls) =
    let later = insert_line line ls in
    if leb_ℤ line.sort_order l.sort_order then line ∷ l ∷ ls else l ∷ later

unfoldable pub sort_lines : List CreditNoteSourceLine → List CreditNoteSourceLine
sort_lines [] = []
sort_lines (l ∷ ls) = insert_line l (sort_lines ls)

-- `Math.round((tax * part) / ttc)` with a positive `ttc`: the nearest integer, and the greater of
-- two. The quotient of the source is exact while the product is below 2 ^ 53.
unfoldable pub round_share : ℤ → ℕ → ℕ → ℤ
round_share (pos n) part ttc = pos ((2 * n * part + ttc) / (2 * ttc))
round_share (negsuc n) part ttc = pos 0 -ℤ pos ((2 * (n + 1) * part + ttc - 1) / (2 * ttc))

unfoldable pub taken_of : ℕ → List Credited → Credited
taken_of id credited = elim (find (λ c. c.id == id) credited) [
  | none ↦ record { id = id; ttc = pos 0; tax = pos 0 }
  | some c ↦ c
]

-- The sums of the loop, and the amount that is left.
pub record Allocation : Type 0 where
  pub lines : List CreditNoteLineDraft
  pub ht : ℤ
  pub tax : ℤ
  pub ttc : ℤ
  pub rem : ℤ

abbrev pub min_ℤ : ℤ → ℤ → ℤ
min_ℤ a b = if leb_ℤ a b then a else b

-- `partTax`: all that is left of the tax of a line that is covered, or a rounded share of it.
unfoldable pub part_tax : ℤ → ℤ → ℤ → ℤ
part_tax part line_ttc line_tax =
    if eq_ℤ part line_ttc
    then line_tax
    else round_share line_tax (pos_part part) (pos_part line_ttc)

-- A part of a line, added to the sums. The lines are listed from the last one.
unfoldable pub take_part : CreditNoteSourceLine → ℤ → ℤ → Allocation → Allocation
take_part src part tax a = record {
  lines =
      record {
        source_line_id = src.id;
        label = src.label;
        unit_price_ht_cents = part -ℤ tax;
        tax_rate_percent = src.tax_rate_percent;
        tax_amount_cents = tax;
        total_ttc_cents = part;
        sort_order = length a.lines;
      }
      ∷ a.lines;
  ht = a.ht +ℤ (part -ℤ tax);
  tax = a.tax +ℤ tax;
  ttc = a.ttc +ℤ part;
  rem = a.rem -ℤ part;
}

-- One turn of the loop.
unfoldable pub allocate_line : List Credited → CreditNoteSourceLine → Allocation → Allocation
allocate_line credited src a =
    let taken = taken_of src.id credited in
    let line_ttc = src.total_ttc_cents -ℤ taken.ttc in
    let line_tax = src.tax_amount_cents -ℤ taken.tax in
    let part = min_ℤ a.rem line_ttc in
    if leb_ℤ line_ttc (pos 0) then a else take_part src part (part_tax part line_ttc line_tax) a

-- The loop, which stops where nothing is left to allocate.
unfoldable pub allocate : List Credited → List CreditNoteSourceLine → Allocation → Allocation
allocate credited [] a = a
allocate credited (src ∷ rest) a =
    let later = allocate credited rest (allocate_line credited src a) in
    if leb_ℤ a.rem (pos 0) then a else later

-- `none` where it throws: the lines do not cover the amount.
unfoldable pub allocate_credit_lines :
    List CreditNoteSourceLine → List Credited → ℤ → Option Allocation
allocate_credit_lines source_lines credited amount =
    let a =
      allocate credited (sort_lines source_lines)
        (record { lines = []; ht = pos 0; tax = pos 0; ttc = pos 0; rem = amount }) in
    if ltb_ℤ (pos 0) a.rem then none else some a
