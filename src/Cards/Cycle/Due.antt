-- ===== src/Cards/Cycle/Due.antt =====
-- The due date is the next one after the statement.
use finnri_api.Base.{
  ℕ, ◌+◌, ◌≡◌, ◌≤◌, ◌<◌, refl, sym, subst, ◌∙◌, arith, inl, inr, true, false, Bool-cases,
}
use finnri_api.Base.Int.{ℤ}
use finnri_api.Cards.Calendar.{
  Date, IsDay, Before, before, before-Before, Before-before, days_in_bounds,
}
use finnri_api.Cards.Cycle.{clamp_day_to_month, due_date_for}

pub clamp-IsDay : (month : ℕ) (day : ℤ) → IsDay (clamp_day_to_month month day)
unfolding clamp_day_to_month
clamp-IsDay month day = ground (arith, days_in_bounds month)

pub clamp_month : (month : ℕ) (day : ℤ) → (clamp_day_to_month month day).month ≡ month
unfolding clamp_day_to_month
clamp_month month day = refl

-- A clamped due day after the statement that no other such day is before.
abbrev IsNext : Date → ℤ → Date → Type 0
IsNext statement due_day due =
    IsDay due
    × Before statement due
    × (due ≡ clamp_day_to_month due.month due_day)
    × ((month : ℕ) → Before statement (clamp_day_to_month month due_day) → due.month ≤ month)

same_month :
    (statement : Date) (due_day : ℤ)
    → before statement (clamp_day_to_month statement.month due_day) ≡ true
    → IsNext statement due_day (clamp_day_to_month statement.month due_day)
unfolding clamp_day_to_month
same_month statement due_day h =
    (clamp-IsDay statement.month due_day, before-Before _ _ h, refl, λ month later. reach later)
  where
    reach :
        {month : ℕ} → Before statement (clamp_day_to_month month due_day) → statement.month ≤ month
    reach (inl lt) = omega arith
    reach (inr (e, lt)) = omega arith

IsNext-month :
    (statement : Date) (due_day : ℤ)
    → before statement (clamp_day_to_month statement.month due_day) ≡ false
    → IsNext statement due_day (clamp_day_to_month (statement.month + 1) due_day)
unfolding clamp_day_to_month
IsNext-month statement due_day h = (
  clamp-IsDay (statement.month + 1) due_day,
  inl (omega arith),
  refl,
  λ month later. reach month later,
)
  where
    reach :
        (month : ℕ)
        → Before statement (clamp_day_to_month month due_day)
        → statement.month + 1 ≤ month
    reach month (inl lt) = omega arith
    reach month (inr (e, lt)) =
        let here = subst (λ m. statement.day < (clamp_day_to_month m due_day).day) (sym e) lt in
        let now =
          Before-before statement (clamp_day_to_month statement.month due_day) (inr (refl, here)) in
        absurd (let f = sym now ∙ h in cc)

due_date_for-IsNext :
    (statement : Date) (due_day : ℤ) → IsNext statement due_day (due_date_for statement due_day)
unfolding due_date_for
due_date_for-IsNext statement due_day =
    elim (Bool-cases (before statement (clamp_day_to_month statement.month due_day))) [
      | inl e ↦ rw e (same_month statement due_day e)
      | inr e ↦ rw e (IsNext-month statement due_day e)
    ]

-- The due date of a statement is a day of the calendar, comes after the statement, and is the clamped due
-- day of its month; where the clamped due day of some month comes after the statement, the due date
-- is in no later month.
pub due_date_for_next :
    (statement : Date) (due_day : ℤ) (month : ℕ)
    → Before statement (clamp_day_to_month month due_day)
    → let due = due_date_for statement due_day in
      IsDay due
      × Before statement due
      × (due ≡ clamp_day_to_month due.month due_day)
      × (due.month ≤ month)
due_date_for_next statement due_day month later =
    let (day, after, anchored, least) = due_date_for-IsNext statement due_day in
    (day, after, anchored, least month later)
