-- ===== src/Subscriptions/Cycle.antt =====
-- `addCycle` of src/modules/subscriptions/subscriptions.service.ts, by the operations of the ECMAScript
-- `Date`. `LocalTime` and `UTC` depend on the time zone of the host and are a parameter.
use hotello_backend.Common.{ℕ, ◌+◌, ◌-◌, ◌*◌, ◌/◌, ◌%◌}
use hotello_backend.Calendar.{civil_of_days, days_of_parts}
use hotello_backend.Model.Subscriptions.{BillingCycle, monthly, yearly}

pub record HostZone : Type 0 where
  pub local_time : ℕ → ℕ
  pub utc : ℕ → ℕ

-- `24 * 60 * 60 * 1000`
abbrev pub day_ms : ℕ
day_ms = 86_400_000

-- the days from 0000-03-01 to the first day of the epoch
abbrev epoch : ℕ
epoch = 719_468

-- `MakeDay(year, month, date)`; the months of a year are counted from 0
make_day : ℕ → ℕ → ℕ → ℕ
make_day year month date = days_of_parts (year + month / 12) (month % 12 + 1) 1 + (date - 1) - epoch

-- the local time `local` on another day
on_day : HostZone → ℕ → ℕ → ℕ
on_day host local day = host.utc (day * day_ms + local % day_ms)

-- `next.setMonth(next.getMonth() + 1)` and `next.setFullYear(next.getFullYear() + 1)`
unfoldable pub add_cycle : HostZone → ℕ → BillingCycle → ℕ
unfolding make_day on_day
add_cycle host from monthly =
    let local = host.local_time from in
    let c = civil_of_days (local / day_ms + epoch) in
    on_day host local (make_day c.year (c.month - 1 + 1) c.day)
add_cycle host from yearly =
    let local = host.local_time from in
    let c = civil_of_days (local / day_ms + epoch) in
    on_day host local (make_day (c.year + 1) (c.month - 1) c.day)
