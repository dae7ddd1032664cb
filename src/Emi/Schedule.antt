-- ===== src/Emi/Schedule.antt =====
-- The schedule that the code builds pays the loan off, in at most the tenure.
use finnri_api.Base.{
  ℕ, zero, suc, ◌+◌, ◌-◌, ◌≡◌, ◌≤◌, ◌<◌, refl, length, arith, Bool, false, ◌||◌, if◌then◌else◌,
  ◌==◌, Bool-cases, inl, inr,
}
use finnri_api.Base.Int64.{Int64, two_63, two_64, sub64, le64, lt64}
use finnri_api.Money.{Money}
use finnri_api.Emi.{principal_payment, schedule_month, schedule_from}
use finnri_api.Emi.Amortises.{Amortises}

-- The part chosen is above nothing and no more than the balance.
part_bounds :
    (payment balance : ℕ) (final : Bool)
    → payment < two_64
    → 0 < balance
    → balance < two_63
    → let part = if le64 payment 0 || lt64 balance payment || final then balance else payment in
      (0 < part) × (part ≤ balance)
part_bounds payment balance final p b c = ground arith

closing_part :
    (part balance : ℕ)
    → 0 < part
    → part ≤ balance
    → balance < two_63
    → (if lt64 (sub64 balance part) 0 then 0 else sub64 balance part) ≡ balance - part
closing_part part balance p q r =
    rw (let e : sub64 balance part ≡ balance - part = omega arith in e)
      (rw (let e : lt64 (balance - part) 0 ≡ false = ground arith in e) refl)

module _ (interest_on : Money → Money) (tenure : Int64) (monthly_emi : Money) where
  month_bounds :
      (month balance : ℕ)
      → 0 < balance
      → balance < two_63
      → let part = principal_payment interest_on tenure monthly_emi month balance in
        (0 < part) × (part ≤ balance)
  unfolding principal_payment
  month_bounds month balance b c = part_bounds _ balance (month == tenure) (omega arith) b c

  closing_lem :
      (month balance : ℕ)
      → 0 < balance
      → balance < two_63
      → (schedule_month interest_on tenure monthly_emi month balance).closing_balance
        ≡ balance - principal_payment interest_on tenure monthly_emi month balance
  unfolding schedule_month
  closing_lem month balance b c =
      closing_part _ balance (month_bounds month balance b c).0 (month_bounds month balance b c).1 c

  -- The last month repays the whole balance.
  last_part :
      (month balance : ℕ)
      → month ≡ tenure
      → principal_payment interest_on tenure monthly_emi month balance ≡ balance
  unfolding principal_payment
  last_part month balance e = ground arith

  -- A month and the schedule of what it leaves.
  month-Amortises :
      (left month balance : ℕ)
      → 0 < balance
      → balance < two_63
      → (let closing = balance - principal_payment interest_on tenure monthly_emi month balance in
          (closing == 0) ≡ false
          → Amortises
              (month + 1)
              closing
              (schedule_from interest_on tenure monthly_emi left (month + 1) closing))
      → Amortises month balance
          (schedule_from interest_on tenure monthly_emi (suc left) month balance)
  unfolding schedule_from
  month-Amortises left month balance b c rest =
      let part = month_bounds month balance b c in
      rw (closing_lem month balance b c) (
        refl,
        refl,
        part.0,
        omega (arith, part.1),
        refl,
        elim (Bool-cases (closing == 0)) [
          | inl done ↦ rw done (ground arith)
          | inr more ↦ rw more (rest more)
        ],
      )
    where
      closing : ℕ
      closing = balance - principal_payment interest_on tenure monthly_emi month balance

  pub schedule_from-Amortises :
      (left month balance : ℕ)
      → 0 < balance
      → balance < two_63
      → month + left ≡ tenure
      → Amortises month balance
          (schedule_from interest_on tenure monthly_emi (suc left) month balance)
  schedule_from-Amortises zero month balance b c e =
      month-Amortises zero month balance b c
        λ more. absurd (ground (arith, last_part month balance (omega (arith, e))))
  schedule_from-Amortises (suc left) month balance b c e =
      month-Amortises (suc left) month balance b c λ more.
        schedule_from-Amortises left (month + 1) _ (ground arith) (omega arith) (omega (arith, e))

  pub length-schedule_from :
      (left month balance : ℕ)
      → length (schedule_from interest_on tenure monthly_emi left month balance) ≤ left
  unfolding schedule_from
  length-schedule_from zero month balance = omega arith
  length-schedule_from (suc left) month balance =
      let this = schedule_month interest_on tenure monthly_emi month balance in
      elim (Bool-cases (this.closing_balance == 0)) [
        | inl done ↦ rw done (omega arith)
        | inr more ↦
            rw more (omega (arith, length-schedule_from left (month + 1) this.closing_balance))
      ]
