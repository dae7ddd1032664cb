-- ===== src/Cards/Cycle/Tiles.antt =====
-- Consecutive cycles, and the window of any cycle.
use finnri_api.Base.{ℕ, ◌+◌, ◌-◌, ◌≡◌, ◌≤◌, refl, arith, inl, inr, Bool-cases, true, leb}
use finnri_api.Base.Int.{ℤ, pos_part}
use finnri_api.Cards.Calendar.{
  Date, days_in, IsDay, Before, before, days_in_bounds, next_day, month_back, before-Before,
}
use finnri_api.Cards.Cycle.Due.{clamp-IsDay, clamp_month}
use finnri_api.Cards.Cycle.{
  clamp_day_to_month, effective_statement_day, statement_cycle, next_statement_date,
}

effective_set :
    (day : ℤ) (d : Date)
    → 1 ≤ pos_part day
    → pos_part day ≤ 31
    → effective_statement_day day d ≡ day
unfolding effective_statement_day
effective_set day d p q = ground arith

next_day-IsDay : (d : Date) → IsDay d → IsDay (next_day d)
unfolding next_day
next_day-IsDay d h = ground (arith, days_in_bounds (d.month + 1))

month_back-IsDay : (d : Date) → IsDay d → IsDay (month_back d)
unfolding month_back
month_back-IsDay d h = ground (arith, days_in_bounds (d.month - 1), days_in_bounds d.month)

-- The day after one month before a day is still before it.
month_back-before : (d : Date) → IsDay d → 1 ≤ d.month → before (next_day (month_back d)) d ≡ true
unfolding month_back next_day
month_back-before d h m = elim (Bool-cases (leb d.day (days_in (d.month - 1)))) [
  | inl fits ↦ rw fits (ground (arith, days_in_bounds (d.month - 1)))
  | inr over ↦ rw over (ground (arith, days_in_bounds (d.month - 1), days_in_bounds d.month))
]

-- The day after a statement is before the next one.
anchor_before :
    (month : ℕ) (day : ℤ)
    → before (next_day (clamp_day_to_month month day)) (clamp_day_to_month (month + 1) day) ≡ true
unfolding clamp_day_to_month next_day
anchor_before month day = ground (arith, days_in_bounds month, days_in_bounds (month + 1))

-- With a statement day from 1 to 31, the window of the next statement starts on the day after a
-- statement that is on that day, and ends on the next statement's date.
pub next_statement_date_tiles :
    (month : ℕ) (day : ℤ)
    → 1 ≤ pos_part day
    → pos_part day ≤ 31
    → let statement = clamp_day_to_month month day in
      let following = next_statement_date statement day in
      statement_cycle following day ≡ (next_day statement, following)
unfolding statement_cycle next_statement_date
next_statement_date_tiles month day p q =
    rw
      (
        effective_set day (clamp_day_to_month month day) p q,
        clamp_month month day,
        effective_set day (clamp_day_to_month (month + 1) day) p q,
        clamp_month (month + 1) day,
        (let e : month + 1 - 1 ≡ month = omega arith in e),
        anchor_before month day,
      )
      refl

-- The window of a statement on any day of the calendar is not empty, and starts on a day of the calendar.
statement_cycle_window :
    (end : Date) (day : ℤ)
    → IsDay end
    → 1 ≤ end.month
    → IsDay (statement_cycle end day).0
      × Before (statement_cycle end day).0 end
      × ((statement_cycle end day).1 ≡ end)
unfolding statement_cycle
statement_cycle_window end day h m =
    let anchor = clamp_day_to_month (end.month - 1) (effective_statement_day day end) in
    elim (Bool-cases (before (next_day anchor) end)) [
      | inl e ↦ rw e (
        next_day-IsDay anchor (clamp-IsDay (end.month - 1) (effective_statement_day day end)),
        before-Before _ _ e,
        refl,
      )
      | inr e ↦ rw e (
        next_day-IsDay _ (month_back-IsDay end h),
        before-Before _ _ (month_back-before end h m),
        refl,
      )
    ]
