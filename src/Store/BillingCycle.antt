-- ===== src/Store/BillingCycle.antt =====
-- apps/api/src/store/billing-cycle.ts: `addBillingCycle`, the next billing date. An instant is its
-- UTC calendar date and the milliseconds of its day.
pub mod Laws
use i_code_host_pro.Prelude.{
  ℕ, suc, ◌+◌, ◌*◌, ◌%◌, ◌≤◌, ◌<◌, ◌≡◌, Bool, true, false, not, ◌&&◌, ◌||◌, Option, none, some,
  ◌==◌, if◌then◌else◌, min,
}

pub data BillingCycle : Type 0 where
  monthly yearly onetime : BillingCycle

-- `month` counts from 0, as `getUTCMonth` does; `day` from 1.
pub record Date : Type 0 where
  pub year : ℕ
  pub month : ℕ
  pub day : ℕ
  pub ms_of_day : ℕ

unfoldable pub is_leap : ℕ → Bool
is_leap y = y % 4 == 0 && (not (y % 100 == 0) || y % 400 == 0)

-- `new Date(Date.UTC(y, m + 1, 0)).getUTCDate()`
unfoldable pub last_day : ℕ → ℕ → ℕ
last_day y m =
    if m == 1
    then if is_leap y then 29 else 28
    else if m == 3 || m == 5 || m == 8 || m == 10
    then 30
    else 31

-- `setUTCMonth(m + 1)` on the first of a month.
unfoldable pub next_month : Date → Date
next_month d =
    if d.month == 11
    then record d { year = d.year + 1; month = 0 }
    else record d { month = d.month + 1 }

unfoldable pub advance : Date → BillingCycle → Date
advance d yearly = record d { year = d.year + 1 }
advance d _ = next_month d

unfoldable pub add_billing_cycle : Date → BillingCycle → Option Date
add_billing_cycle from onetime = none
add_billing_cycle from cycle =
    let d = advance (record from { day = 1 }) cycle in
    some (record d { day = min from.day (last_day d.year d.month) })
