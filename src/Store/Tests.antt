-- ===== src/Store/Tests.antt =====
-- apps/api/src/store: runs at concrete inputs, and the theorems applied there.
use i_code_host_pro.Prelude.{
  ℕ, ◌+◌, ◌<◌, ◌≡◌, ◌≢◌, ◌⊎◌, inr, refl, false, Option, none, some, List, [], ◌∷◌, arith, ◌==◌,
  if◌then◌else◌,
}
use i_code_host_pro.Prelude.Int.{pos}
use i_code_host_pro.Prelude.Text.{Text, codes, text_eq}
use i_code_host_pro.Store.BillingCycle.{
  Date, monthly, last_day, is_leap, add_billing_cycle, advance, next_month,
}
use i_code_host_pro.Store.BillingCycle.Laws.{IsDate, month_index, add_billing_cycle_next}
use i_code_host_pro.Store.PricingAcceptance.{
  Server, PricingAcceptance, evaluate_pricing_acceptance, compare_fields, missing_fields,
}
use i_code_host_pro.Store.PricingAcceptance.Laws.{
  IsAccepted, evaluate_pricing_acceptance-IsAccepted,
}
use i_code_host_pro.Store.RenewalChain.{
  Order, root, cycle, missing, out_of_fuel, find_order, has, last, read, walk,
  renewal_chain_root_id,
}
use i_code_host_pro.Store.RenewalChain.Laws.{
  Reach, here, up, renewal_chain_root_id-ne-out_of_fuel, renewal_chain_root_id_unique,
}
use i_code_host_pro.Store.SweepLease.{
  Lease, find_lease, Statement, steal, create, release, exec, exec_steal, exec_create, Faults,
  acquire_sweep_lease,
}
use i_code_host_pro.Store.SweepLease.Exclusion.{
  IsHeld, exec_all, acquire_sweep_lease_excluded, acquire_sweep_lease_expired,
}

-- The 31st of January 2024, a leap year.
abbrev january : Date
january = record { year = 2024; month = 0; day = 31; ms_of_day = 5 }

abbrev february : Date
february = record { year = 2024; month = 1; day = 29; ms_of_day = 5 }

january-IsDate : IsDate january
unfolding last_day
january-IsDate = record { month_ok = omega arith; day_from = omega arith; day_to = omega arith }

january-next : add_billing_cycle january monthly ≡ some february
unfolding add_billing_cycle advance next_month last_day is_leap
january-next = refl

add_billing_cycle_next_example :
    IsDate february
    × (month_index february ≡ month_index january + 1)
    × (february.ms_of_day ≡ january.ms_of_day)
    × ((february.day ≡ january.day)
        ⊎ ((february.day ≡ last_day february.year february.month) × (february.day < january.day)))
add_billing_cycle_next_example =
    add_billing_cycle_next january february monthly january-IsDate january-next

abbrev server : Server
server = record { currency = codes "USD"; payment_method_id = none; quote_key = codes "ab12" }

abbrev acceptance : PricingAcceptance
acceptance = record {
  accepted_total_ttc_cents = some (pos 1200);
  accepted_currency = some (codes "USD");
  accepted_payment_method_id = some none;
  accepted_quote_key = some (codes "ab12");
}

acceptance-passes : evaluate_pricing_acceptance (pos 1200) server acceptance ≡ none
unfolding evaluate_pricing_acceptance compare_fields missing_fields text_eq
acceptance-passes = refl

evaluate_pricing_acceptance-IsAccepted_example : IsAccepted (pos 1200) server acceptance
evaluate_pricing_acceptance-IsAccepted_example =
    evaluate_pricing_acceptance-IsAccepted (pos 1200) server acceptance (omega arith)
      acceptance-passes

abbrev order : ℕ → Option ℕ → Order
order id mother = record { id = id; renews_order_id = mother }

-- Order 3 renews 2, which renews 1; 7 and 8 renew each other; 9 renews an order that is gone.
abbrev orders : List Order
orders =
    order 1 none
    ∷ order 2 (some 1)
    ∷ order 3 (some 2)
    ∷ order 7 (some 8)
    ∷ order 8 (some 7)
    ∷ order 9 (some 5)
    ∷ []

from_3 : renewal_chain_root_id orders 3 ≡ root 1
unfolding renewal_chain_root_id walk has read find_order
from_3 = refl

from_2 : renewal_chain_root_id orders 2 ≡ root 1
unfolding renewal_chain_root_id walk has read find_order
from_2 = refl

from_7 : renewal_chain_root_id orders 7 ≡ cycle 7
unfolding renewal_chain_root_id walk has read find_order
from_7 = refl

from_9 : renewal_chain_root_id orders 9 ≡ missing 5
unfolding renewal_chain_root_id walk has read find_order
from_9 = refl

way_3_2 : Reach orders 3 2
unfolding read find_order
way_3_2 = up refl here

abbrev way_3_1 : Reach orders 3 1
unfolding read find_order
way_3_1 = up refl (up refl here)

abbrev order_1 : ℕ
order_1 = 1

renewal_chain_root_id_unique_example : (order_1 ≡ 1) × Reach orders 3 1 × (read orders 1 ≡ last)
renewal_chain_root_id_unique_example =
    renewal_chain_root_id_unique orders 3 2 order_1 1 way_3_2 from_3 from_2

renewal_chain_root_id-ne-out_of_fuel_example : renewal_chain_root_id orders 7 ≢ out_of_fuel
renewal_chain_root_id-ne-out_of_fuel_example = renewal_chain_root_id-ne-out_of_fuel orders 7

-- Process 20 holds the lease 4 until 900.
abbrev leases : List Lease
leases = record { name = 4; holder = 20; expires_at = 900 } ∷ []

abbrev sound : Faults
sound = record { steal_fails = false; find_fails = false; create_fails = false }

leases-IsHeld : IsHeld 4 20 900 leases
unfolding find_lease
leases-IsHeld = refl

abbrev meanwhile : List Statement
meanwhile = steal 4 31 500 ∷ create 4 31 500 ∷ []

acquire_sweep_lease_excluded_example :
    let (ls, got) =
      acquire_sweep_lease sound
        (exec_all meanwhile)
        (exec_all (release 4 31 ∷ []))
        4
        30
        400
        leases in
    (got ≡ none) × IsHeld 4 20 900 ls
acquire_sweep_lease_excluded_example =
    acquire_sweep_lease_excluded sound meanwhile (release 4 31 ∷ []) 4 30 400 leases 20 900
      leases-IsHeld (omega arith) (omega arith, (tt, tt)) (inr (λ e. absurd (omega arith)), tt)

stolen :
    acquire_sweep_lease sound (exec_all []) (exec_all []) 4 30 1000 leases
    ≡ (record { name = 4; holder = 30; expires_at = 181000 } ∷ [], some 30)
unfolding acquire_sweep_lease exec exec_steal exec_create find_lease exec_all
stolen = refl

abbrev token : ℕ
token = 30

acquire_sweep_lease_expired_example :
    let (ls, got) = acquire_sweep_lease sound (exec_all meanwhile) (exec_all []) 4 30 1000 leases in
    (got ≡ some 30)
    × ((other : ℕ)
        → find_lease other ls ≡ (
            if other == 4
            then some (record { name = 4; holder = 30; expires_at = 181000 })
            else find_lease other leases))
acquire_sweep_lease_expired_example =
    acquire_sweep_lease_expired sound meanwhile [] 4 30 1000 leases 20 900 leases-IsHeld
      (omega arith) refl

-- A catalogue that answers for no table.
abbrev bare : Text → Option (List Text)
bare t = some []
