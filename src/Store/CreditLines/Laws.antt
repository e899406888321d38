-- ===== src/Store/CreditLines/Laws.antt =====
-- apps/api/src/store/refund.service.ts: the lines of a credit note add up to the amount refunded.
use i_code_host_pro.Prelude.{
  ◌≡◌, refl, sym, subst, false, some, List, [], ◌∷◌, arith, Bool-cases, inl, inr, All,
}
use i_code_host_pro.Prelude.Int.{ℤ, pos, ◌+ℤ◌, ◌-ℤ◌, ◌≤ℤ◌, leb_ℤ, ltb_ℤ, int_laws}
use i_code_host_pro.Store.CreditLines.{
  CreditNoteSourceLine, CreditNoteLineDraft, Credited, Allocation, taken_of, min_ℤ, part_tax,
  take_part, allocate_line, allocate, allocate_credit_lines, sort_lines,
}

abbrev pub sum_ttc : List CreditNoteLineDraft → ℤ
sum_ttc [] = pos 0
sum_ttc (l ∷ ls) = l.total_ttc_cents +ℤ sum_ttc ls

abbrev pub sum_tax : List CreditNoteLineDraft → ℤ
sum_tax [] = pos 0
sum_tax (l ∷ ls) = l.tax_amount_cents +ℤ sum_tax ls

-- The sums are those of the lines, each line splits into its net and its tax, and what is allocated
-- and what is left make up the amount.
pub record IsCoherent (amount : ℤ) (a : Allocation) : Type 0 where
  pub ttc : a.ttc ≡ sum_ttc a.lines
  pub tax : a.tax ≡ sum_tax a.lines
  pub split : a.ht +ℤ a.tax ≡ a.ttc
  pub total : a.ttc +ℤ a.rem ≡ amount
  pub left : pos 0 ≤ℤ a.rem
  pub parts :
      All
        (λ l.
          (l.unit_price_ht_cents +ℤ l.tax_amount_cents ≡ l.total_ttc_cents)
          × (pos 1 ≤ℤ l.total_ttc_cents))
        a.lines

take_part-IsCoherent :
    (amount : ℤ) (src : CreditNoteSourceLine) (part tax : ℤ) (a : Allocation)
    → IsCoherent amount a
    → pos 1 ≤ℤ part
    → part ≤ℤ a.rem
    → IsCoherent amount (take_part src part tax a)
unfolding take_part
take_part-IsCoherent amount src part tax a h some_part enough = record {
  ttc = grind (int_laws, h.ttc);
  tax = grind (int_laws, h.tax);
  split = grind (int_laws, h.split);
  total = grind (int_laws, h.total);
  left = grind (int_laws, h.left);
  parts = ((grind int_laws, some_part), h.parts);
}

allocate_line-IsCoherent :
    (amount : ℤ) (credited : List Credited) (src : CreditNoteSourceLine) (a : Allocation)
    → IsCoherent amount a
    → leb_ℤ a.rem (pos 0) ≡ false
    → IsCoherent amount (allocate_line credited src a)
unfolding allocate_line
allocate_line-IsCoherent amount credited src a h more =
    let taken = taken_of src.id credited in
    let line_ttc = src.total_ttc_cents -ℤ taken.ttc in
    let line_tax = src.tax_amount_cents -ℤ taken.tax in
    let part = min_ℤ a.rem line_ttc in
    elim (Bool-cases (leb_ℤ line_ttc (pos 0))) [
      | inl empty ↦ rw (allocate_line, empty) h
      | inr some_left ↦
          rw (allocate_line, some_left)
            (take_part-IsCoherent amount src part (part_tax part line_ttc line_tax) a h
              (ground (arith, more, some_left)) (ground arith))
    ]

allocate-IsCoherent :
    (amount : ℤ) (credited : List Credited) (ls : List CreditNoteSourceLine) (a : Allocation)
    → IsCoherent amount a
    → IsCoherent amount (allocate credited ls a)
unfolding allocate
allocate-IsCoherent amount credited [] a h = h
allocate-IsCoherent amount credited (src ∷ rest) a h = elim (Bool-cases (leb_ℤ a.rem (pos 0))) [
  | inl finished ↦ rw finished h
  | inr more ↦ rw more (
      allocate-IsCoherent amount credited rest (allocate_line credited src a)
        (allocate_line-IsCoherent amount credited src a h more))
]

-- The credit lines of an amount that is not negative, where they are not refused, add up to the
-- amount to the cent: so do the net and the tax, the two sums are those of the lines, and each line
-- has a positive part that is its net and its tax.
pub allocate_credit_lines_exact :
    (ls : List CreditNoteSourceLine) (credited : List Credited) (amount : ℤ) (a : Allocation)
    → pos 0 ≤ℤ amount
    → allocate_credit_lines ls credited amount ≡ some a
    → (a.ttc ≡ amount)
      × (a.ht +ℤ a.tax ≡ amount)
      × (sum_ttc a.lines ≡ amount)
      × (sum_tax a.lines ≡ a.tax)
      × All
          (λ l.
            (l.unit_price_ht_cents +ℤ l.tax_amount_cents ≡ l.total_ttc_cents)
            × (pos 1 ≤ℤ l.total_ttc_cents))
          a.lines
unfolding allocate_credit_lines
allocate_credit_lines_exact ls credited amount a positive h =
    let start : Allocation = record {
      lines = [];
      ht = pos 0;
      tax = pos 0;
      ttc = pos 0;
      rem = amount;
    } in
    let end = allocate credited (sort_lines ls) start in
    let k : IsCoherent amount end =
      allocate-IsCoherent amount credited (sort_lines ls) start (record {
        ttc = refl;
        tax = refl;
        split = grind int_laws;
        total = grind int_laws;
        left = positive;
        parts = tt;
      }) in
    elim (Bool-cases (ltb_ℤ (pos 0) end.rem)) [
      | inl short ↦ absurd (ground arith)
      | inr covered ↦
          let same : end ≡ a = ground arith in
          subst
            (λ x.
              (x.ttc ≡ amount)
              × (x.ht +ℤ x.tax ≡ amount)
              × (sum_ttc x.lines ≡ amount)
              × (sum_tax x.lines ≡ x.tax)
              × All
                  (λ l.
                    (l.unit_price_ht_cents +ℤ l.tax_amount_cents ≡ l.total_ttc_cents)
                    × (pos 1 ≤ℤ l.total_ttc_cents))
                  x.lines)
            same
            (
              grind (int_laws, k.total, k.left, covered),
              grind (int_laws, k.total, k.left, k.split, covered),
              grind (int_laws, k.total, k.left, k.ttc, covered),
              sym k.tax,
              k.parts,
            )
    ]
