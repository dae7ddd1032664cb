-- ===== src/Emi.antt =====
-- internal/http/emi.go: the check of an EMI calculation and its amortisation schedule.
pub mod Amortises
pub mod Schedule
pub mod Calculation
use finnri_api.Base.{
  ℕ, zero, suc, ◌+◌, Bool, not, ◌||◌, String, List, [], ◌∷◌, ◌++◌, if◌then◌else◌, ◌==◌, is_blank,
  trim_space, str_eq, inl, inr, ◌⊎◌,
}
use finnri_api.Base.Int64.{Int64, add64, sub64, le64, lt64, is_negative}
use finnri_api.Money.{Money, is_positive}

-- Go's float64 arithmetic, of which the code uses these operations. `round` is `math.Round` and the
-- conversion to Money.
pub record Floats (F : Type 0) : Type 0 where
  pub of_money : Money → F
  pub of_int : Int64 → F
  pub zero_value : F
  pub one : F
  pub hundred : F
  pub twelve : F
  pub add : F → F → F
  pub sub : F → F → F
  pub mul : F → F → F
  pub div : F → F → F
  pub pow : F → F → F
  pub equal : F → F → Bool
  pub less : F → F → Bool
  pub is_nan : F → Bool
  pub is_inf : F → Bool
  pub round : F → Money

pub record EmiInput (F : Type 0) : Type 0 where
  pub principal_amount : Money
  pub annual_interest_rate_percent : F
  pub tenure_months : Int64
  pub currency : String

pub record EmiMonth : Type 0 where
  pub month : ℕ
  pub opening_balance : Money
  pub payment_amount : Money
  pub principal_amount : Money
  pub interest_amount : Money
  pub closing_balance : Money

pub record EmiResponse (F : Type 0) : Type 0 where
  pub principal_amount : Money
  pub currency : String
  pub annual_interest_rate_percent : F
  pub tenure_months : Int64
  pub monthly_emi : Money
  pub total_payment : Money
  pub total_interest : Money
  pub schedule : List EmiMonth

-- The entries that `validate` puts in its map of fields.
pub data FieldError : Type 0 where
  principal_not_positive rate_not_finite rate_negative rate_over_hundred : FieldError
  tenure_too_short tenure_too_long currency_not_inr : FieldError

abbrev max_emi_tenure_months : Int64
max_emi_tenure_months = 360

abbrev when : Bool → FieldError → List FieldError
when b e = if b then e ∷ [] else []

abbrev first_of : Bool → FieldError → List FieldError → List FieldError
first_of b e rest = if b then e ∷ [] else rest

-- The total over the schedule of one of its columns, as `+=` accumulates it.
unfoldable pub total : (EmiMonth → Money) → Money → List EmiMonth → Money
total column acc [] = acc
total column acc (month ∷ rest) = total column (add64 acc (column month)) rest

-- The loop of buildEMISchedule, with the number of months that are left; `interest_on` is
-- `roundToMoney(float64(opening) * monthlyRate)`.
module _ (interest_on : Money → Money) (tenure : Int64) (monthly_emi : Money) where
  -- The principal part of a month: what the instalment leaves after the interest, or the whole balance.
  unfoldable pub principal_payment : ℕ → Money → Money
  principal_payment month balance =
      let payment = sub64 monthly_emi (interest_on balance) in
      if le64 payment 0 || lt64 balance payment || month == tenure then balance else payment

  unfoldable pub schedule_month : ℕ → Money → EmiMonth
  unfolding principal_payment
  schedule_month month balance =
      let closing = sub64 balance (principal_payment month balance) in
      record {
        month = month;
        opening_balance = balance;
        payment_amount = add64 (principal_payment month balance) (interest_on balance);
        principal_amount = principal_payment month balance;
        interest_amount = interest_on balance;
        closing_balance = if lt64 closing 0 then 0 else closing;
      }

  unfoldable pub schedule_from : ℕ → ℕ → Money → List EmiMonth
  unfolding schedule_month
  schedule_from zero month balance = []
  schedule_from (suc left) month balance =
      let this = schedule_month month balance in
      let rest = schedule_from left (month + 1) this.closing_balance in
      this ∷ (if this.closing_balance == 0 then [] else rest)

-- What follows needs `strings.ToUpper` and the floats.
module _ {F : Type 0} (upper : String → String) (fl : Floats F) where
  unfoldable pub normalized_emi_currency : String → String
  unfolding is_blank
  normalized_emi_currency currency =
      if is_blank currency then "INR" else upper (trim_space currency)

  rate_errors : F → List FieldError
  rate_errors rate = first_of (fl.is_nan rate || fl.is_inf rate) rate_not_finite (
      first_of (fl.less rate fl.zero_value) rate_negative
        (when (fl.less fl.hundred rate) rate_over_hundred))

  tenure_errors : Int64 → List FieldError
  tenure_errors tenure =
      first_of (lt64 tenure 1) tenure_too_short
        (when (lt64 max_emi_tenure_months tenure) tenure_too_long)

  unfoldable pub validate : EmiInput F → List FieldError
  unfolding is_positive normalized_emi_currency rate_errors tenure_errors
  validate input =
      when (not (is_positive input.principal_amount)) principal_not_positive
      ++ rate_errors input.annual_interest_rate_percent
      ++ tenure_errors input.tenure_months
      ++ when (not (str_eq (normalized_emi_currency input.currency) "INR")) currency_not_inr

  unfoldable pub calculate_monthly_emi : Money → F → Int64 → Money
  calculate_monthly_emi principal rate tenure =
      let factor = fl.pow (fl.add fl.one rate) (fl.of_int tenure) in
      if fl.equal rate fl.zero_value
      then fl.round (fl.div (fl.of_money principal) (fl.of_int tenure))
      else fl.round
          (fl.div (fl.mul (fl.mul (fl.of_money principal) rate) factor) (fl.sub factor fl.one))

  unfoldable pub interest_at : F → Money → Money
  interest_at rate opening = fl.round (fl.mul (fl.of_money opening) rate)

  unfoldable pub build_emi_schedule : Money → F → Int64 → Money → List EmiMonth
  unfolding schedule_from interest_at
  build_emi_schedule principal rate tenure monthly_emi =
      let months = if is_negative tenure then 0 else tenure in
      schedule_from (interest_at rate) tenure monthly_emi months 1 principal

  unfoldable pub build_emi_calculation : EmiInput F → EmiResponse F
  unfolding calculate_monthly_emi build_emi_schedule normalized_emi_currency total
  build_emi_calculation input =
      let rate = fl.div (fl.div input.annual_interest_rate_percent fl.twelve) fl.hundred in
      let monthly_emi = calculate_monthly_emi input.principal_amount rate input.tenure_months in
      let rows = build_emi_schedule input.principal_amount rate input.tenure_months monthly_emi in
      record {
        principal_amount = input.principal_amount;
        currency = normalized_emi_currency input.currency;
        annual_interest_rate_percent = input.annual_interest_rate_percent;
        tenure_months = input.tenure_months;
        monthly_emi = monthly_emi;
        total_payment = total (λ m. m.payment_amount) 0 rows;
        total_interest = total (λ m. m.interest_amount) 0 rows;
        schedule = rows;
      }

  reply : EmiInput F → List FieldError → List FieldError ⊎ EmiResponse F
  unfolding build_emi_calculation
  reply input [] = inr (build_emi_calculation input)
  reply input (e ∷ es) = inl (e ∷ es)

  -- calculateEMI, after the request is decoded: the fields that are wrong, or the calculation.
  unfoldable pub calculate_emi : EmiInput F → List FieldError ⊎ EmiResponse F
  unfolding validate reply
  calculate_emi input = reply input (validate input)
