-- ===== src/Store/BillingCycle/Laws.antt =====
-- apps/api/src/store/billing-cycle.ts: the next date is a date of the calendar, in the next month or
-- in the same month of the next year.
use i_code_host_pro.Prelude.{ℕ, ◌+◌, ◌*◌, ◌≤◌, ◌<◌, ◌≡◌, ◌⊎◌, none, some, arith}
use i_code_host_pro.Store.BillingCycle.{
  BillingCycle, monthly, yearly, onetime, Date, last_day, next_month, advance, add_billing_cycle,
}

-- A date of the calendar.
pub record IsDate (d : Date) : Type 0 where
  pub month_ok : d.month < 12
  pub day_from : 1 ≤ d.day
  pub day_to : d.day ≤ last_day d.year d.month

-- The number of the month since the year 0.
abbrev pub month_index : Date → ℕ
month_index d = 12 * d.year + d.month

abbrev pub months_of : BillingCycle → ℕ
months_of monthly = 1
months_of yearly = 12
months_of onetime = 0

last_day-bounds : (y m : ℕ) → (28 ≤ last_day y m) × (last_day y m ≤ 31)
unfolding last_day
last_day-bounds y m = ground arith

-- A next billing date, computed from a date of the calendar, is a date of the calendar, in the month
-- that is one month (monthly) or twelve (yearly) later, at the same time of the day, and on the same
-- day or, if that month is too short, on its last.
pub add_billing_cycle_next :
    (from next : Date) (cycle : BillingCycle)
    → IsDate from
    → add_billing_cycle from cycle ≡ some next
    → IsDate next
      × (month_index next ≡ month_index from + months_of cycle)
      × (next.ms_of_day ≡ from.ms_of_day)
      × ((next.day ≡ from.day)
          ⊎ ((next.day ≡ last_day next.year next.month) × (next.day < from.day)))
unfolding add_billing_cycle advance next_month
add_billing_cycle_next from next onetime d h = absurd (cc)
add_billing_cycle_next from next monthly d h = ground (arith, last_day-bounds next.year next.month)
add_billing_cycle_next from next yearly d h = ground (arith, last_day-bounds next.year next.month)

-- Exactly a one-time purchase has no next date.
pub add_billing_cycle-none :
    (from : Date) (cycle : BillingCycle)
    → (add_billing_cycle from cycle ≡ none → cycle ≡ onetime)
      × (cycle ≡ onetime → add_billing_cycle from cycle ≡ none)
unfolding add_billing_cycle
add_billing_cycle-none from cycle = (λ h. ground arith, λ h. ground arith)
