-- ===== src/Cards/Plan/Progress.antt =====
-- What a plan's progress says of its instalments.
use finnri_api.Base.{
  ℕ, ◌+◌, ◌%◌, ◌≡◌, ◌<◌, ◌∙◌, refl, arith, String, List, [], ◌∷◌, some, length, inr,
}
use finnri_api.Base.Int64.{two_64, add64}
use finnri_api.Emi.{Floats, EmiInput, EmiResponse, EmiMonth, calculate_emi}
use finnri_api.Emi.Amortises.{principal_sum}
use finnri_api.Emi.Calculation.{calculate_emi-PaysOff}
use finnri_api.Cards.Calendar.{Date}
use finnri_api.Cards.Plan.{
  CardEmiPlan, CardEmiInstallment, EmiPlanProgress, InstallmentStatus, scheduled, billed, paid,
  build_installments, add_installment, summarise_from, summarise_emi_plan, fresh_progress,
  installment_of,
}

-- The exact sum of the principal parts of instalments.
abbrev pub parts_sum : List CardEmiInstallment → ℕ
parts_sum [] = 0
parts_sum (i ∷ rest) = i.principal_part + parts_sum rest

add_conserves :
    (p : EmiPlanProgress) (status : InstallmentStatus) (i : CardEmiInstallment)
    → add64
        (add_installment p status i).principal_repaid
        (add_installment p status i).principal_remaining
      ≡ (p.principal_repaid + p.principal_remaining + i.principal_part) % two_64
unfolding add_installment
add_conserves p paid i = omega arith
add_conserves p scheduled i = omega arith
add_conserves p billed i = omega arith

summarise_from_conserves :
    (p : EmiPlanProgress) (installments : List CardEmiInstallment)
    → add64
        (summarise_from p installments).principal_repaid
        (summarise_from p installments).principal_remaining
      ≡ (p.principal_repaid + p.principal_remaining + parts_sum installments) % two_64
unfolding summarise_from
summarise_from_conserves p [] = omega arith
summarise_from_conserves p (i ∷ rest) =
    summarise_from_conserves (add_installment p i.status i) rest
    ∙ omega (arith, add_conserves p i.status i)

-- The principal repaid and the principal remaining of a plan sum, in int64 arithmetic, to the principal
-- parts of its instalments, whatever their statuses.
summarise_emi_plan_conserves :
    (installments : List CardEmiInstallment)
    → add64
        (summarise_emi_plan installments).principal_repaid
        (summarise_emi_plan installments).principal_remaining
      ≡ parts_sum installments % two_64
unfolding summarise_emi_plan
summarise_emi_plan_conserves installments =
    omega (arith, summarise_from_conserves (fresh_progress (length installments)) installments)

-- A progress after instalments that are all scheduled.
abbrev IsScheduled : EmiPlanProgress → EmiPlanProgress → ℕ → Type 0
IsScheduled p q sum =
    (q.installments_total ≡ p.installments_total)
    × (q.installments_paid ≡ p.installments_paid)
    × (q.principal_repaid ≡ p.principal_repaid)
    × (q.blocked_principal ≡ (p.blocked_principal + sum) % two_64)
    × (q.principal_remaining ≡ (p.principal_remaining + sum) % two_64)

built_progress :
    (id : ℕ) (plan : CardEmiPlan) (first : Date) (schedule : List EmiMonth) (p : EmiPlanProgress)
    → p.blocked_principal < two_64
    → p.principal_remaining < two_64
    → IsScheduled p
        (summarise_from p (build_installments id plan (some first) schedule))
        (principal_sum schedule)
unfolding summarise_from build_installments add_installment
built_progress id plan first [] p b r = (refl, refl, refl, omega arith, omega arith)
built_progress id plan first (m ∷ schedule) p b r =
    let next = add_installment p scheduled (installment_of id plan first m) in
    let h = built_progress id plan first schedule next (omega arith) (omega arith) in
    (h.0, h.1, h.2, omega (arith, h.3), omega (arith, h.4))

length-built :
    (id : ℕ) (plan : CardEmiPlan) (first : Date) (schedule : List EmiMonth)
    → length (build_installments id plan (some first) schedule) ≡ length schedule
unfolding build_installments
length-built id plan first [] = refl
length-built id plan first (m ∷ schedule) = omega (arith, length-built id plan first schedule)

-- For an EMI calculation that is answered, of an amount and a tenure that are int64 words: the instalments
-- built from its schedule are one for each month, none of them is paid, and both the principal that
-- they block and the principal that remains are exactly the amount.
pub summarise-build_installments :
    {F : Type 0} (upper : String → String) (fl : Floats F) (input : EmiInput F) (r : EmiResponse F)
    (id : ℕ) (plan : CardEmiPlan) (first : Date)
    → input.principal_amount < two_64
    → input.tenure_months < two_64
    → calculate_emi upper fl input ≡ inr r
    → let progress = summarise_emi_plan (build_installments id plan (some first) r.schedule) in
      (progress.installments_total ≡ length r.schedule)
      × (progress.installments_paid ≡ 0)
      × (progress.blocked_principal ≡ input.principal_amount)
      × (progress.principal_remaining ≡ input.principal_amount)
unfolding summarise_emi_plan
summarise-build_installments upper fl input r id plan first p t e =
    let (_, sum, _, _, _) = calculate_emi-PaysOff upper fl input r p t e in
    let (total, none_paid, _, blocked, remaining) =
      built_progress id plan first r.schedule (fresh_progress (length installments)) (omega arith)
        (omega arith) in
    (
      total ∙ length-built id plan first r.schedule,
      none_paid,
      omega (arith, blocked, sum, p),
      omega (arith, remaining, sum, p),
    )
  where
    installments : List CardEmiInstallment
    installments = build_installments id plan (some first) r.schedule
