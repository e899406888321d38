-- ===== src/Store/CreditLines/Tests.antt =====
-- apps/api/src/store/refund.service.ts: the theorem applied at a refund of 12.00 over two lines, the
-- second one first.
use i_code_host_pro.Prelude.{◌≡◌, refl, some, [], ◌∷◌, arith}
use i_code_host_pro.Prelude.Int.{pos, ◌+ℤ◌, ◌-ℤ◌, ◌≤ℤ◌}
use i_code_host_pro.Prelude.{All}
use i_code_host_pro.Prelude.Text.{codes}
use i_code_host_pro.Store.CreditLines.{
  CreditNoteSourceLine, Credited, Allocation, insert_line, sort_lines, taken_of, part_tax,
  round_share, take_part, allocate_line, allocate, allocate_credit_lines,
}
use i_code_host_pro.Store.CreditLines.Laws.{sum_ttc, sum_tax, allocate_credit_lines_exact}

abbrev plan : CreditNoteSourceLine
plan = record {
  id = 1;
  label = codes "Plan";
  tax_rate_percent = 19;
  tax_amount_cents = pos 190;
  total_ttc_cents = pos 1000;
  sort_order = pos 2;
}

abbrev fees : CreditNoteSourceLine
fees = record {
  id = 2;
  label = codes "Fees";
  tax_rate_percent = 0;
  tax_amount_cents = pos 0;
  total_ttc_cents = pos 500;
  sort_order = pos 1;
}

-- A first credit note took 1.00 of the plan.
abbrev before : Credited
before = record { id = 1; ttc = pos 100; tax = pos 19 }

-- 5.00 of the fees, and 7.00 of the 9.00 that are left of the plan, with 1.33 of 1.71 of tax.
abbrev allocation : Allocation
allocation = record {
  lines =
      record {
        source_line_id = 1;
        label = codes "Plan";
        unit_price_ht_cents = pos 567;
        tax_rate_percent = 19;
        tax_amount_cents = pos 133;
        total_ttc_cents = pos 700;
        sort_order = 1;
      }
      ∷ record {
        source_line_id = 2;
        label = codes "Fees";
        unit_price_ht_cents = pos 500;
        tax_rate_percent = 0;
        tax_amount_cents = pos 0;
        total_ttc_cents = pos 500;
        sort_order = 0;
      }
      ∷ [];
  ht = pos 1067;
  tax = pos 133;
  ttc = pos 1200;
  rem = pos 0;
}

twelve : allocate_credit_lines (plan ∷ fees ∷ []) (before ∷ []) (pos 1200) ≡ some allocation
unfolding allocate_credit_lines allocate allocate_line take_part part_tax round_share taken_of
    sort_lines insert_line ◌+ℤ◌ ◌-ℤ◌
twelve = refl

allocate_credit_lines_exact_example :
    (allocation.ttc ≡ pos 1200)
    × (allocation.ht +ℤ allocation.tax ≡ pos 1200)
    × (sum_ttc allocation.lines ≡ pos 1200)
    × (sum_tax allocation.lines ≡ allocation.tax)
    × All
        (λ l.
          (l.unit_price_ht_cents +ℤ l.tax_amount_cents ≡ l.total_ttc_cents)
          × (pos 1 ≤ℤ l.total_ttc_cents))
        allocation.lines
allocate_credit_lines_exact_example =
    allocate_credit_lines_exact (plan ∷ fees ∷ []) (before ∷ []) (pos 1200) allocation (omega arith)
      twelve
