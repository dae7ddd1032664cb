-- ===== src/Scenarios/DueDates.antt =====
-- The theorem on due dates at a calendar of months of 30 days, whose day 5 is a holiday.
use finnri_api.Base.{
  ℕ, ◌+◌, ◌*◌, ◌%◌, ◌<◌, ◌≤◌, ◌==◌, ◌≡◌, refl, arith, true, false, Bool-cases, inl, inr,
  if◌then◌else◌, some, trim_space, is_blank, str_eq,
}
use finnri_api.Cards.Match.Text.{parse_api_date}
use finnri_api.Recurring.{
  Dates, due_on, is_holiday, is_closed, next_open, next_nse_mutual_fund_day,
  add_subscription_interval, advance_to, advance_subscription_due_date,
}
use finnri_api.Recurring.Steps.{IsCalendar, Repeats, advance_subscription_due_date-ends}

abbrev simple : Dates
simple = record {
  strings = record {
    upper = λ s. s;
    lower = λ s. s;
    equal_fold = λ s t. str_eq s t;
    is_letter = λ c. true;
    is_digit = λ c. false;
    parse_day = λ s. some 4;
  };
  add_date = λ day years months days. day + 360 * years + 30 * months + days;
  weekday = λ day. day % 7;
  format = λ day. if day == 5 then "2026-01-26" else "another day";
  new_year_2027 = 6;
}

simple_listed : (day : ℕ) → 6 ≤ day → is_holiday simple day ≡ false
unfolding is_holiday
simple_listed day h = elim (Bool-cases (day == 5)) [
  | inl e ↦ absurd (ground arith)
  | inr e ↦ rw e refl
]

simple-IsCalendar : IsCalendar simple
simple-IsCalendar = record {
  days = λ day n. omega arith;
  months = λ day years months h. omega (arith, h);
  week = λ day. omega arith;
  weekdays = λ day. omega arith;
  listed = simple_listed;
}

-- From Thursday past the holiday and the weekend, and on past the payment on Tuesday.
business_days :
    advance_subscription_due_date simple "2026-01-22" "business_daily" 9 ≡ due_on "another day"
unfolding advance_subscription_due_date advance_to add_subscription_interval
    next_nse_mutual_fund_day next_open is_closed is_holiday parse_api_date trim_space is_blank
business_days = refl

readable : parse_api_date simple.strings "2026-01-22" ≡ some 4
unfolding parse_api_date trim_space is_blank
readable = refl

advance_subscription_due_date-ends_example :
    (e : ℕ) × (advance_subscription_due_date simple "2026-01-22" "business_daily" 9
      ≡ due_on (simple.format e))
    × Repeats simple "business_daily" 10 4 e
    × (9 < e)
    × (4 < e)
advance_subscription_due_date-ends_example =
    advance_subscription_due_date-ends simple simple-IsCalendar "2026-01-22" "business_daily" 9 4
      readable
