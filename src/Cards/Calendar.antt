-- ===== src/Cards/Calendar.antt =====
-- Calendar days as the `time` package has them. A month is counted through, 12 * year + month - 1, so
-- that the month before January is the December before.
use finnri_api.Base.{
  ℕ, ◌+◌, ◌-◌, ◌/◌, ◌%◌, ◌≡◌, ◌≤◌, ◌<◌, leb, ltb, ◌==◌, Bool, not, ◌&&◌, ◌||◌, if◌then◌else◌, arith,
  ◌⊎◌, inl, inr, true, Bool-cases, ltb→lt,
}

pub record Date : Type 0 where
  pub month : ℕ
  pub day : ℕ

abbrev pub date : ℕ → ℕ → Date
date m d = record { month = m; day = d }

unfoldable pub is_leap : ℕ → Bool
is_leap y = (y % 4 == 0 && not (y % 100 == 0)) || y % 400 == 0

-- The last day of a month.
unfoldable pub days_in : ℕ → ℕ
unfolding is_leap
days_in m =
    let k = m % 12 in
    if k == 1
    then if is_leap (m / 12) then 29 else 28
    else if k == 3 || k == 5 || k == 8 || k == 10
    then 30
    else 31

-- d.Before(e)
abbrev pub before : Date → Date → Bool
before d e = ltb d.month e.month || (d.month == e.month && ltb d.day e.day)

-- d.AddDate(0, 0, 1)
unfoldable pub next_day : Date → Date
next_day d = if leb (days_in d.month) d.day then date (d.month + 1) 1 else date d.month (d.day + 1)

-- d.AddDate(0, -1, 0), which runs over into the month that a short month leaves.
unfoldable pub month_back : Date → Date
month_back d =
    if leb d.day (days_in (d.month - 1))
    then date (d.month - 1) d.day
    else date d.month (d.day - days_in (d.month - 1))

-- A day that the calendar has.
abbrev pub IsDay : Date → Type 0
IsDay d = (1 ≤ d.day) × (d.day ≤ days_in d.month)

abbrev pub Before : Date → Date → Type 0
Before d e = (d.month < e.month) ⊎ ((d.month ≡ e.month) × (d.day < e.day))

pub days_in_bounds : (m : ℕ) → (28 ≤ days_in m) × (days_in m ≤ 31)
unfolding days_in
days_in_bounds m = ground arith

pub before-Before : (d e : Date) → before d e ≡ true → Before d e
before-Before d e h = elim (Bool-cases (ltb d.month e.month)) [
  | inl less ↦ inl (ltb→lt _ _ less)
  | inr more ↦ inr (ground arith)
]

pub Before-before : (d e : Date) → Before d e → before d e ≡ true
Before-before d e (inl h) = ground arith
Before-before d e (inr h) = ground arith
