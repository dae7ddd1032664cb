-- ===== src/Scenarios/Amounts.antt =====
-- The theorems on amounts and on EMI calculations at concrete inputs.
use finnri_api.Base.{
  ℕ, ◌+◌, ◌-◌, ◌*◌, ◌/◌, ◌^◌, ◌≡◌, ◌==◌, ltb, refl, arith, true, false, String, Option, none, some,
  inr, length, [], ◌∷◌,
}
use finnri_api.Base.Int64.{two_63, two_64}
use finnri_api.Result.{ok, err, amount_too_large}
use finnri_api.Money.{
  Money, parse_money, money_string, marshal_json, value, unmarshal_json, scan, text,
}
use finnri_api.Money.Decimal.{decimal_text, reading, parse_money-decimal_text}
use finnri_api.Money.RoundTrip.{parse_money-money_string}
use finnri_api.Emi.{Floats, EmiInput, EmiResponse, calculate_emi, build_emi_calculation}
use finnri_api.Emi.Calculation.{PaysOff, calculate_emi-PaysOff}
use finnri_api.Cards.Calendar.{date}
use finnri_api.Cards.Plan.{
  CardEmiPlan, CardEmiInstallment, active, billed, build_installments, summarise_emi_plan,
  covered_by, SettledStatement, PlanStore, release_emi_principal_for_statement,
  reblock_emi_principal_for_statement,
}
use finnri_api.Cards.Plan.Progress.{summarise-build_installments}
use finnri_api.Cards.Plan.Released.{owed_again, reblock-release}

-- -12.50
abbrev debit : Money
debit = 18446744073709550366

abbrev no_string : String → Option String
no_string s = none

abbrev no_float : ℕ → String
no_float x = "0.00"

prints : money_string debit ≡ "-12.50"
unfolding money_string
prints = refl

parse_money-money_string_example :
    (parse_money (money_string debit) ≡ ok debit)
    × (unmarshal_json no_string (marshal_json debit) ≡ ok debit)
    × (scan no_float (text (value debit)) ≡ ok debit)
parse_money-money_string_example =
    parse_money-money_string no_string no_float debit (omega arith) (λ e. omega (arith, e))

-- The least int64 prints as a text that is not read back.
least_prints : money_string two_63 ≡ "--92233720368547758.-8"
unfolding money_string
least_prints = refl

-- A sign after the sign is taken: the hundredths count against the units.
second_sign : (parse_money "--5" ≡ ok 500) × (parse_money "+-5.50" ≡ ok (two_64 - 450))
unfolding parse_money
second_sign = (refl, refl)

sign_in_fraction : parse_money "1.+5" ≡ ok 105
unfolding parse_money
sign_in_fraction = refl

parse_money-decimal_text_example :
    parse_money (decimal_text false 92233720368547758 8) ≡ reading false 92233720368547758 8
parse_money-decimal_text_example = parse_money-decimal_text false 92233720368547758 8 (omega arith)

too_large : parse_money "92233720368547758.08" ≡ err amount_too_large
unfolding parse_money
too_large = refl

-- Whole numbers stand for the floats: 1200 over a year without interest.
abbrev whole : Floats ℕ
whole = record {
  of_money = λ m. m;
  of_int = λ n. n;
  zero_value = 0;
  one = 1;
  hundred = 100;
  twelve = 12;
  add = λ x y. x + y;
  sub = λ x y. x - y;
  mul = λ x y. x * y;
  div = λ x y. x / y;
  pow = λ x y. x ^ y;
  equal = λ x y. x == y;
  less = ltb;
  is_nan = λ x. false;
  is_inf = λ x. false;
  round = λ x. x;
}

abbrev same : String → String
same s = s

abbrev loan : EmiInput ℕ
loan = record {
  principal_amount = 1000;
  annual_interest_rate_percent = 0;
  tenure_months = 3;
  currency = "INR";
}

abbrev answer : EmiResponse ℕ
unfolding build_emi_calculation
answer = build_emi_calculation same whole loan

answered : calculate_emi same whole loan ≡ inr answer
unfolding calculate_emi
answered = refl

calculate_emi-PaysOff_example : PaysOff loan answer
calculate_emi-PaysOff_example =
    calculate_emi-PaysOff same whole loan answer (omega arith) (omega arith) answered

abbrev plan : CardEmiPlan
plan = record { user_id = 1; account_id = 2; status = active }

summarise-build_installments_example :
    let progress =
      summarise_emi_plan (build_installments 7 plan (some (date 24300 31)) answer.schedule) in
    (progress.installments_total ≡ length answer.schedule)
    × (progress.installments_paid ≡ 0)
    × (progress.blocked_principal ≡ 1000)
    × (progress.principal_remaining ≡ 1000)
summarise-build_installments_example =
    summarise-build_installments same whole loan answer 7 plan (date 24300 31) (omega arith)
      (omega arith) answered

abbrev installment : ℕ → CardEmiInstallment
installment month = record {
  plan_id = 7;
  user_id = 1;
  account_id = 2;
  seq = 1;
  due_date = date month 5;
  amount = 333;
  principal_part = 333;
  interest_part = 0;
  status = billed;
  statement_id = none;
}

abbrev settled : SettledStatement
settled = record {
  id = 4;
  user_id = 1;
  account_id = 2;
  cycle_end = date 24300 20;
  is_settled = true;
}

abbrev cards : PlanStore
cards = record {
  plans = record { rows = (7, plan) ∷ []; next_id = 8 };
  installments = record {
    rows = (1, installment 24300) ∷ (2, installment 24301) ∷ [];
    next_id = 3;
  };
}

reblock-release_example :
    reblock_emi_principal_for_statement
      (owed_again settled)
      (release_emi_principal_for_statement settled cards)
    ≡ cards
unfolding covered_by
reblock-release_example = reblock-release settled cards (refl, (refl, tt)) refl
