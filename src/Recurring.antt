-- ===== src/Recurring.antt =====
-- The due dates of recurring payments: `advanceSubscriptionDueDate` of internal/http/subscriptions.go with
-- the calendar of mutual fund orders. A date is its day, counted from Go's zero time.
pub mod Steps
use finnri_api.Base.{
  ℕ, zero, suc, ◌+◌, ◌-◌, ltb, ◌==◌, Bool, ◌||◌, String, str_eq, Option, none, some, List, [], ◌∷◌,
  any_of, if◌then◌else◌,
}
use finnri_api.Cards.Match.Text.{Strings, parse_api_date}

-- What is taken from Go's time package beside the parsing: `AddDate` by years, months and days, `Weekday` from
-- 0 for Sunday to 6, `Format`, and the day 2027-01-01.
pub record Dates : Type 0 where
  pub strings : Strings
  pub add_date : ℕ → ℕ → ℕ → ℕ → ℕ
  pub weekday : ℕ → ℕ
  pub format : ℕ → String
  pub new_year_2027 : ℕ

abbrev pub nse_mutual_fund_holidays : List String
nse_mutual_fund_holidays =
    "2026-01-26" ∷ "2026-03-03" ∷ "2026-03-26" ∷ "2026-03-31" ∷ "2026-04-03" ∷ "2026-04-14"
    ∷ "2026-05-01" ∷ "2026-05-28" ∷ "2026-06-26" ∷ "2026-09-14" ∷ "2026-10-02" ∷ "2026-10-20"
    ∷ "2026-11-10" ∷ "2026-11-24" ∷ "2026-12-25" ∷ []

unfoldable pub is_holiday : Dates → ℕ → Bool
is_holiday c day = any_of (str_eq (c.format day)) nse_mutual_fund_holidays

unfoldable pub is_closed : Dates → ℕ → Bool
unfolding is_holiday
is_closed c day = ((c.weekday day == 6) || (c.weekday day == 0)) || is_holiday c day

-- The loop over closed days, on fuel.
unfoldable pub next_open : Dates → ℕ → ℕ → Option ℕ
unfolding is_closed
next_open c zero day = none
next_open c (suc fuel) day =
    let rest = next_open c fuel (c.add_date day 0 0 1) in if is_closed c day then rest else some day

-- From 2027 on a weekend is all there is to pass.
unfoldable pub next_nse_mutual_fund_day : Dates → ℕ → Option ℕ
unfolding next_open
next_nse_mutual_fund_day c day =
    next_open c (suc (suc (suc (c.new_year_2027 - c.add_date day 0 0 1)))) (c.add_date day 0 0 1)

unfoldable pub add_subscription_interval : Dates → ℕ → String → Option ℕ
unfolding next_nse_mutual_fund_day
add_subscription_interval c day interval =
    if str_eq interval "daily"
    then some (c.add_date day 0 0 1)
    else if str_eq interval "business_daily"
    then next_nse_mutual_fund_day c day
    else if str_eq interval "weekly"
    then some (c.add_date day 0 0 7)
    else if str_eq interval "biweekly"
    then some (c.add_date day 0 0 14)
    else if str_eq interval "quarterly"
    then some (c.add_date day 0 3 0)
    else if str_eq interval "yearly"
    then some (c.add_date day 1 0 0)
    else some (c.add_date day 0 1 0)

-- `for next.Before(bound)`, on fuel.
unfoldable pub advance_to : Dates → String → ℕ → ℕ → ℕ → Option ℕ
unfolding add_subscription_interval
advance_to c interval bound zero next = none
advance_to c interval bound (suc fuel) next =
    let rest : Option ℕ = elim (add_subscription_interval c next interval) [
      | none ↦ none
      | some later ↦ advance_to c interval bound fuel later
    ] in
    if ltb next bound then rest else some next

pub data DueDate : Type 0 where
  unreadable endless : DueDate
  due_on : String → DueDate

abbrev pub printed : Dates → Option ℕ → DueDate
printed c none = endless
printed c (some day) = due_on (c.format day)

-- While the date is not after the day of the payment. Each round adds a day at least.
unfoldable pub advance_subscription_due_date : Dates → String → String → ℕ → DueDate
unfolding advance_to add_subscription_interval parse_api_date
advance_subscription_due_date c current interval paid = elim (parse_api_date c.strings current) [
  | none ↦ unreadable
  | some day ↦ elim (add_subscription_interval c day interval) [
    | none ↦ endless
    | some next ↦ printed c (advance_to c interval (suc paid) (suc (suc paid - next)) next)
  ]
]

-- `nextDueDateFromCandidate` of internal/http/recurring_candidates.go.
unfoldable pub next_due_date_from_candidate : Dates → String → String → ℕ → DueDate
unfolding advance_to add_subscription_interval parse_api_date
next_due_date_from_candidate c expected interval today =
    let first : Option ℕ = elim (parse_api_date c.strings expected) [
      | none ↦ add_subscription_interval c today interval
      | some day ↦ some day
    ] in
    elim first [
      | none ↦ endless
      | some next ↦ printed c (advance_to c interval today (suc (today - next)) next)
    ]
