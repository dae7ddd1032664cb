-- ===== src/Cards/Cycle.antt =====
-- internal/http/card_statement_cycle.go: the window of a statement, its due date and the next one.
pub mod Due
pub mod Tiles
use finnri_api.Base.{ℕ, ◌+◌, ◌-◌, leb, ltb, ◌&&◌, if◌then◌else◌}
use finnri_api.Base.Int.{ℤ, pos, pos_part}
use finnri_api.Cards.Calendar.{Date, date, days_in, before, next_day, month_back}

-- clampDayToMonth
unfoldable pub clamp_day_to_month : ℕ → ℤ → Date
clamp_day_to_month month day =
    let from_one = if ltb (pos_part day) 1 then 1 else pos_part day in
    date month (if ltb (days_in month) from_one then days_in month else from_one)

unfoldable pub effective_statement_day : ℤ → Date → ℤ
effective_statement_day statement_day statement_date =
    if leb 1 (pos_part statement_day) && leb (pos_part statement_day) 31
    then statement_day
    else pos statement_date.day

-- The first and the last day of a statement's window.
unfoldable pub statement_cycle : Date → ℤ → Date × Date
unfolding clamp_day_to_month effective_statement_day next_day month_back
statement_cycle end statement_day =
    let day = effective_statement_day statement_day end in
    let start = next_day (clamp_day_to_month (end.month - 1) day) in
    (if before start end then start else next_day (month_back end), end)

unfoldable pub due_date_for : Date → ℤ → Date
unfolding clamp_day_to_month
due_date_for statement due_day =
    let candidate = clamp_day_to_month statement.month due_day in
    if before statement candidate
    then candidate
    else clamp_day_to_month (statement.month + 1) due_day

unfoldable pub next_statement_date : Date → ℤ → Date
unfolding clamp_day_to_month effective_statement_day
next_statement_date current statement_day =
    clamp_day_to_month (current.month + 1) (effective_statement_day statement_day current)
