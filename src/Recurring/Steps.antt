-- ===== src/Recurring/Steps.antt =====
-- The loops over due dates end, at the first date that is late enough.
use finnri_api.Base.{
  ℕ, zero, suc, ◌+◌, ◌-◌, ◌%◌, ◌≤◌, ◌<◌, ltb, ◌==◌, ◌≡◌, ◌∙◌, refl, sym, arith, Bool, true, false,
  ◌||◌, String, str_eq, Option, some, if◌then◌else◌, Bool-cases, Option-cases, inl, inr, ltb→lt,
}
use mathlib.Core.Option.{some-injective}
use finnri_api.Recurring.{
  Dates, due_on, is_holiday, is_closed, next_open, next_nse_mutual_fund_day,
  add_subscription_interval, advance_to, advance_subscription_due_date,
  next_due_date_from_candidate, printed,
}
use finnri_api.Cards.Match.Text.{parse_api_date}

-- What the code relies on: days add up, months and years lead to a later day, the weekdays go round,
-- and no day from 2027 on is in the list of holidays.
pub record IsCalendar (c : Dates) : Type 0 where
  pub days : (day n : ℕ) → c.add_date day 0 0 n ≡ day + n
  pub months : (day years months : ℕ) → 0 < years + months → day < c.add_date day years months 0
  pub week : (day : ℕ) → c.weekday (day + 1) ≡ (c.weekday day + 1) % 7
  pub weekdays : (day : ℕ) → c.weekday day < 7
  pub listed : (day : ℕ) → c.new_year_2027 ≤ day → is_holiday c day ≡ false

-- A date reached by one addition of the interval or more, each further one from a date before the bound.
pub data Repeats (c : Dates) (interval : String) (bound : ℕ) : ℕ → ℕ → Type 0 where
  once : {a b : ℕ} → add_subscription_interval c a interval ≡ some b → Repeats c interval bound a b
  again :
      {a b d : ℕ}
      → Repeats c interval bound a b
      → b < bound
      → add_subscription_interval c b interval ≡ some d
      → Repeats c interval bound a d

abbrev IsLater : ℕ → Option ℕ → Type 0
IsLater day o = (e : ℕ) × (o ≡ some e) × (day < e)

if-IsLater :
    (day : ℕ) (b : Bool) (x y : Option ℕ)
    → IsLater day x
    → IsLater day y
    → IsLater day (if b then x else y)
if-IsLater day true x y h h' = h
if-IsLater day false x y h h' = h'

not_before : (a b : ℕ) → b ≤ a → ltb a b ≡ false
not_before a b h = ground arith

before→le : (a b : ℕ) → ltb a b ≡ false → b ≤ a
before→le a b h = ground arith

module _ (c : Dates) (k : IsCalendar c) where
  abbrev is_weekend : ℕ → Bool
  is_weekend day = (c.weekday day == 6) || (c.weekday day == 0)

  closed_weekend :
      (day : ℕ) → c.new_year_2027 ≤ day → is_closed c day ≡ true → is_weekend day ≡ true
  unfolding is_closed
  closed_weekend day h shut = ground (arith, k.listed day h)

  -- Three days in a row are not all closed.
  opens :
      (day : ℕ)
      → c.new_year_2027 ≤ day
      → is_closed c day ≡ true
      → is_closed c (day + 1) ≡ true
      → is_closed c (day + 1 + 1) ≡ false
  opens day h one two = elim (Bool-cases (is_closed c (day + 1 + 1))) [
    | inl three ↦ absurd (
        ground (
          arith,
          closed_weekend day h one,
          closed_weekend (day + 1) (omega (arith, h)) two,
          closed_weekend (day + 1 + 1) (omega (arith, h)) three,
          k.week day,
          k.week (day + 1),
          k.weekdays day,
        ))
    | inr e ↦ e
  ]

  next_open-total :
      (n day : ℕ)
      → c.new_year_2027 ≤ day + n
      → (e : ℕ) × (next_open c (suc (suc (suc n))) day ≡ some e) × (day ≤ e)
  unfolding next_open
  next_open-total zero day h =
      rw (k.days day 1, k.days (day + 1) 1)
        (elim (Bool-cases (is_closed c day)) [
          | inr e ↦ (day, rw e refl, omega arith)
          | inl e ↦ elim (Bool-cases (is_closed c (day + 1))) [
            | inr e' ↦ (day + 1, rw (e, e') refl, omega arith)
            | inl e' ↦
                (day + 1 + 1, rw (e, e', opens day (omega (arith, h)) e e') refl, omega arith)
          ]
        ])
  next_open-total (suc n) day h = elim (Bool-cases (is_closed c day)) [
    | inr e ↦ (day, rw e refl, omega arith)
    | inl e ↦
        let (r, found, late) = next_open-total n (day + 1) (omega (arith, h)) in
        (r, rw (e, k.days day 1) found, omega (arith, late))
  ]

  adds-IsLater : (day n : ℕ) → 0 < n → IsLater day (some (c.add_date day 0 0 n))
  adds-IsLater day n h = (c.add_date day 0 0 n, refl, rw (k.days day n) (omega (arith, h)))

  moves-IsLater :
      (day years months : ℕ)
      → 0 < years + months
      → IsLater day (some (c.add_date day years months 0))
  moves-IsLater day years months h =
      (c.add_date day years months 0, refl, k.months day years months h)

  next_nse_mutual_fund_day-IsLater : (day : ℕ) → IsLater day (next_nse_mutual_fund_day c day)
  unfolding next_nse_mutual_fund_day
  next_nse_mutual_fund_day-IsLater day = rw (k.days day 1) (
      let (e, found, late) =
        next_open-total (c.new_year_2027 - (day + 1)) (day + 1) (omega arith) in
      (e, found, omega (arith, late)))

  add_subscription_interval-IsLater :
      (day : ℕ) (interval : String) → IsLater day (add_subscription_interval c day interval)
  unfolding add_subscription_interval
  add_subscription_interval-IsLater day interval =
      if-IsLater day (str_eq interval "daily") _ _ (adds-IsLater day 1 (omega arith)) (
        if-IsLater day (str_eq interval "business_daily") _ _ (next_nse_mutual_fund_day-IsLater day)
          (if-IsLater day (str_eq interval "weekly") _ _ (adds-IsLater day 7 (omega arith)) (
            if-IsLater day (str_eq interval "biweekly") _ _ (adds-IsLater day 14 (omega arith)) (
              if-IsLater day (str_eq interval "quarterly") _ _ (moves-IsLater day 0 3 (omega arith))
                (if-IsLater day (str_eq interval "yearly") _ _ (moves-IsLater day 1 0 (omega arith))
                  (moves-IsLater day 0 1 (omega arith)))))))

  -- Repeated additions lead to a later day.
  Repeats-later : {interval : String} {bound a b : ℕ} → Repeats c interval bound a b → a < b
  Repeats-later {interval = i} {a = a} (once found) =
      let (e, same, late) = add_subscription_interval-IsLater a i in
      omega (arith, late, some-injective _ _ (sym found ∙ same))
  Repeats-later {interval = i} (again {b = b} r before found) =
      let (e, same, late) = add_subscription_interval-IsLater b i in
      omega (arith, late, Repeats-later r, some-injective _ _ (sym found ∙ same))

  -- The loop ends at a date that is not before the bound, and keeps what each round keeps.
  advance_to-total :
      (P : ℕ → Type 0) (interval : String) (bound fuel next : ℕ)
      → ((a b : ℕ) → P a → a < bound → add_subscription_interval c a interval ≡ some b → P b)
      → bound ≤ next + fuel
      → P next
      → (e : ℕ) × (advance_to c interval bound (suc fuel) next ≡ some e) × P e × (bound ≤ e)
  unfolding advance_to
  advance_to-total P interval bound zero next keeps h r =
      (next, rw (not_before next bound (omega (arith, h))) refl, r, omega (arith, h))
  advance_to-total P interval bound (suc fuel) next keeps h r = elim (Bool-cases (ltb next bound)) [
    | inr e ↦ (next, rw e refl, r, before→le next bound e)
    | inl e ↦
        let (later, found, late) = add_subscription_interval-IsLater next interval in
        let (d, ends, steps, reached) =
          advance_to-total P interval bound fuel later keeps (omega (arith, h, late))
            (keeps next later r (ltb→lt next bound e) found) in
        (d, rw (e, found) ends, steps, reached)
  ]

  -- Where days and dates are as in Go's calendar and the due date can be read, the search for the
  -- next due date ends: it gives the first date after the day of the payment that repeated
  -- additions of the interval reach from the due date, with one addition at least, and that date
  -- is later than the due date.
  pub advance_subscription_due_date-ends :
      (current interval : String) (paid day : ℕ)
      → parse_api_date c.strings current ≡ some day
      → (e : ℕ) × (advance_subscription_due_date c current interval paid ≡ due_on (c.format e))
        × Repeats c interval (suc paid) day e
        × (paid < e)
        × (day < e)
  unfolding advance_subscription_due_date
  advance_subscription_due_date-ends current interval paid day read =
      let (next, found, late) = add_subscription_interval-IsLater day interval in
      let (e, ends, steps, reached) =
        advance_to-total (Repeats c interval (suc paid) day) interval (suc paid) (suc paid - next)
          next (λ a b r before more. again r before more) (omega arith) (once found) in
      (
        e,
        rw (advance_subscription_due_date, read, found, ends) refl,
        steps,
        omega (arith, reached),
        Repeats-later steps,
      )

  candidate_from :
      (interval : String) (today next : ℕ)
      → (e : ℕ) × (printed c (advance_to c interval today (suc (today - next)) next)
          ≡ due_on (c.format e))
        × (today ≤ e)
  candidate_from interval today next =
      let (e, ends, u, reached) =
        advance_to-total (λ d. Unit {0}) interval today (today - next) next
          (λ a b r before more. tt) (omega arith) tt in
      (e, rw ends refl, reached)

  -- Where days and dates are as in Go's calendar, the date of a candidate, whether it can be read or
  -- not, is moved on to one that is not before today.
  next_due_date_from_candidate-ends :
      (expected interval : String) (today : ℕ)
      → (e : ℕ) × (next_due_date_from_candidate c expected interval today ≡ due_on (c.format e))
        × (today ≤ e)
  unfolding next_due_date_from_candidate
  next_due_date_from_candidate-ends expected interval today =
      elim (Option-cases (parse_api_date c.strings expected)) [
        | inl unread ↦
            let (next, found, late) = add_subscription_interval-IsLater today interval in
            rw (next_due_date_from_candidate, unread, found) (candidate_from interval today next)
        | inr (day, read) ↦
            rw (next_due_date_from_candidate, read) (candidate_from interval today day)
      ]
