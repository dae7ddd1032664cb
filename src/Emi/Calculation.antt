-- ===== src/Emi/Calculation.antt =====
-- The calculation that a valid request gets.
use finnri_api.Base.{
  ℕ, zero, suc, ◌≡◌, ◌≤◌, ◌<◌, refl, List, [], ◌∷◌, ◌++◌, length, arith, false, not, String, str_eq,
  inr,
}
use finnri_api.Base.Int64.{two_63, two_64, add64, is_negative}
use finnri_api.Money.{is_positive}
use finnri_api.Emi.{
  Floats, FieldError, principal_not_positive, currency_not_inr, normalized_emi_currency, EmiInput,
  EmiResponse, when, validate, tenure_errors, calculate_emi, calculate_monthly_emi,
  build_emi_schedule, build_emi_calculation, schedule_from, interest_at, reply,
}
use finnri_api.Emi.Amortises.{Amortises, principal_sum, principal_sum-Amortises, total-Amortises}
use finnri_api.Emi.Schedule.{schedule_from-Amortises, length-schedule_from}

append-nil_parts : {A : Type 0} (xs ys : List A) → xs ++ ys ≡ [] → (xs ≡ []) × (ys ≡ [])
append-nil_parts [] ys e = (refl, e)
append-nil_parts (x ∷ xs) ys e = cc

-- The response's schedule pays the amount off within the tenure, and its totals agree.
abbrev pub PaysOff : {F : Type 0} → EmiInput F → EmiResponse F → Type 0
PaysOff input r =
    Amortises 1 input.principal_amount r.schedule
    × (principal_sum r.schedule ≡ input.principal_amount)
    × (length r.schedule ≤ input.tenure_months)
    × (length r.schedule ≤ 360)
    × (r.total_payment ≡ add64 input.principal_amount r.total_interest)

module _ {F : Type 0} (upper : String → String) (fl : Floats F) (input : EmiInput F) where
  -- A request without errors has a positive amount and a tenure of 1 to 360 months.
  valid_ranges :
      input.principal_amount < two_64
      → input.tenure_months < two_64
      → validate upper fl input ≡ []
      → (0 < input.principal_amount)
        × (input.principal_amount < two_63)
        × (1 ≤ input.tenure_months)
        × (input.tenure_months ≤ 360)
  unfolding validate tenure_errors is_positive
  valid_ranges p t e =
      let (most, _) = append-nil_parts _ currency e in
      let (some_errors, tenure) =
        append-nil_parts _ (tenure_errors upper fl input.tenure_months) most in
      let (amount, _) =
        append-nil_parts (when (not (is_positive input.principal_amount)) principal_not_positive) _
          some_errors in
      ground arith
    where
      currency : List FieldError
      currency =
          when (not (str_eq (normalized_emi_currency upper fl input.currency) "INR"))
            currency_not_inr

  built_valid :
      (r : EmiResponse F) (es : List FieldError)
      → reply upper fl input es ≡ inr r
      → (es ≡ []) × (r ≡ build_emi_calculation upper fl input)
  unfolding reply
  built_valid r [] e = (refl, cc)
  built_valid r (e ∷ es) h = cc

  -- The built schedule for a positive amount and tenure.
  built_schedule :
      (rate : F) (monthly_emi : ℕ)
      → 0 < input.principal_amount
      → input.principal_amount < two_63
      → 1 ≤ input.tenure_months
      → input.tenure_months ≤ 360
      → let rows =
          build_emi_schedule upper fl input.principal_amount rate input.tenure_months monthly_emi in
        Amortises 1 input.principal_amount rows × (length rows ≤ input.tenure_months)
  unfolding build_emi_schedule
  built_schedule rate monthly_emi p q r t =
      rw (let e : is_negative input.tenure_months ≡ false = ground arith in e) (
        rows input.tenure_months refl r,
        length-schedule_from _ _ _ input.tenure_months 1 input.principal_amount,
      )
    where
      rows :
          (n : ℕ)
          → n ≡ input.tenure_months
          → 1 ≤ n
          → Amortises 1 input.principal_amount (
              schedule_from
                (interest_at upper fl rate)
                input.tenure_months
                monthly_emi
                n
                1
                input.principal_amount)
      rows zero e h = absurd (omega arith)
      rows (suc n) e h =
          schedule_from-Amortises (interest_at upper fl rate) input.tenure_months monthly_emi n 1
            input.principal_amount p q (omega (arith, e))

  built-PaysOff :
      0 < input.principal_amount
      → input.principal_amount < two_63
      → 1 ≤ input.tenure_months
      → input.tenure_months ≤ 360
      → PaysOff input (build_emi_calculation upper fl input)
  unfolding build_emi_calculation
  built-PaysOff p q s t =
      let rate = fl.div (fl.div input.annual_interest_rate_percent fl.twelve) fl.hundred in
      let monthly_emi =
        calculate_monthly_emi upper fl input.principal_amount rate input.tenure_months in
      let (pays, short) = built_schedule rate monthly_emi p q s t in
      let sums = total-Amortises 1 input.principal_amount 0 0 0 _ pays (omega arith) in
      (
        pays,
        principal_sum-Amortises 1 input.principal_amount _ pays,
        short,
        omega (arith, short, t),
        omega (arith, sums),
      )

  -- For an amount and a tenure that are int64 words, whatever the float arithmetic computes: a request
  -- that is answered gets a schedule of at most its tenure of months, and of at most 360. In it each
  -- month opens with what the month before left and repays a part of it above nothing, the last month
  -- leaves nothing, and the principal parts sum to exactly the amount. The total payment is the amount
  -- with the total interest, in int64 arithmetic.
  pub calculate_emi-PaysOff :
      (r : EmiResponse F)
      → input.principal_amount < two_64
      → input.tenure_months < two_64
      → calculate_emi upper fl input ≡ inr r
      → PaysOff input r
  unfolding calculate_emi
  calculate_emi-PaysOff r p t e =
      let (valid, made) = built_valid r (validate upper fl input) e in
      let (low, high, short, long) = valid_ranges p t valid in
      rw made (built-PaysOff low high short long)
