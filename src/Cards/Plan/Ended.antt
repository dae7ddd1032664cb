-- ===== src/Cards/Plan/Ended.antt =====
-- How a plan ends: closed when all of it is paid, or foreclosed.
use mathlib.Core.Option
use mathlib.Core.Option.{some-injective}
use finnri_api.Base.{
  ℕ, ltb, ◌==◌, ==_iff, ◌≡◌, ◌∙◌, refl, sym, ap, arith, Bool, Bool-cases, true, false, not, ◌&&◌,
  ◌||◌, none, some, List, [], ◌∷◌, keep, if◌then◌else◌, inl, inr,
}
use finnri_api.Table.{find_row, update_row, update}
use finnri_api.Table.Laws.{IsKeyed, find_row-update_row_self, find_row-update_row_ne}
use finnri_api.Cards.Plan.{
  CardEmiPlan, CardEmiInstallment, PlanStore, closed, is_active, is_scheduled, is_blocking,
  active_plan, outstanding, close_each, close_fully_paid_emi_plans, foreclose_emi_plan,
}

abbrev pub closed_plan : CardEmiPlan → CardEmiPlan
closed_plan p = record p { status = closed }

-- A key is among those of a list of rows.
abbrev is_listed : ℕ → List (ℕ × CardEmiPlan) → Bool
is_listed id [] = false
is_listed id ((i, p) ∷ rows) = i == id || is_listed id rows

abbrev unpaid_left : ℕ → PlanStore → Bool
unpaid_left id s = ltb 0 (outstanding id s.installments.rows)

abbrev close_one : ℕ → PlanStore → PlanStore
close_one id s = record s { plans = update s.plans id (λ p. record p { status = closed }) }

abbrev step : Bool → ℕ → PlanStore → PlanStore
step b i s = if b then s else close_one i s

step-keeps : (b : Bool) (i : ℕ) (s : PlanStore) → (step b i s).installments ≡ s.installments
step-keeps true i s = refl
step-keeps false i s = refl

close_each-keeps :
    (list : List (ℕ × CardEmiPlan)) (s : PlanStore)
    → (close_each list s).installments ≡ s.installments
unfolding close_each
close_each-keeps [] s = refl
close_each-keeps ((i, p) ∷ list) s =
    close_each-keeps list (step (unpaid_left i s) i s) ∙ step-keeps (unpaid_left i s) i s

step_row :
    (a b : Bool) (i id : ℕ) (s : PlanStore) (p : CardEmiPlan)
    → (i == id) ≡ a
    → find_row id s.plans.rows ≡ some p
    → find_row id (step b i s).plans.rows ≡ some (if a && not b then closed_plan p else p)
unfolding update
step_row true true i id s p e h = h
step_row false true i id s p e h = h
step_row true false i id s p e h =
    let same : i ≡ id = (==_iff i id).0 e in
    ap (λ j. find_row id (update_row j closed_plan s.plans.rows)) same
    ∙ find_row-update_row_self id closed_plan s.plans.rows
    ∙ ap (Option.map closed_plan) h
step_row false false i id s p e h =
    find_row-update_row_ne i id closed_plan s.plans.rows (λ same. ground arith) ∙ h

-- The test of a plan's own instalments is what its key gives.
own_test :
    (i id : ℕ) (s : PlanStore)
    → ((i == id) && not (unpaid_left i s)) ≡ ((i == id) && not (unpaid_left id s))
own_test i id s = elim (Bool-cases (i == id)) [
  | inl e ↦ ap (λ j. (i == id) && not (unpaid_left j s)) ((==_iff i id).0 e)
  | inr e ↦ rw e refl
]

twice :
    (a l u : Bool) (p : CardEmiPlan)
    → (if l && not u
        then closed_plan (if a && not u then closed_plan p else p)
        else if a && not u
        then closed_plan p
        else p)
      ≡ (if (a || l) && not u then closed_plan p else p)
twice true true true p = refl
twice true true false p = refl
twice true false true p = refl
twice true false false p = refl
twice false true true p = refl
twice false true false p = refl
twice false false true p = refl
twice false false false p = refl

find_row-close_each :
    (id : ℕ) (list : List (ℕ × CardEmiPlan)) (s : PlanStore) (p : CardEmiPlan)
    → find_row id s.plans.rows ≡ some p
    → find_row id (close_each list s).plans.rows
      ≡ some (if is_listed id list && not (unpaid_left id s) then closed_plan p else p)
unfolding close_each
find_row-close_each id [] s p h = h
find_row-close_each id ((i, q) ∷ list) s p h =
    find_row-close_each id list next now row
    ∙ ap
        (λ t. some (
          if is_listed id list && not (ltb 0 (outstanding id t.rows))
          then closed_plan now
          else now))
        (step-keeps (unpaid_left i s) i s)
    ∙ ap some (twice (i == id) (is_listed id list) (unpaid_left id s) p)
  where
    next : PlanStore
    next = step (unpaid_left i s) i s

    now : CardEmiPlan
    now = if (i == id) && not (unpaid_left id s) then closed_plan p else p

    row : find_row id next.plans.rows ≡ some now
    row =
        step_row (i == id) (unpaid_left i s) i id s p refl h
        ∙ ap (λ b. some (if b then closed_plan p else p)) (own_test i id s)

is_listed-none :
    (id : ℕ) (f : CardEmiPlan → Bool) (rows : List (ℕ × CardEmiPlan))
    → find_row id rows ≡ none
    → is_listed id (keep (λ r. f r.1) rows) ≡ false
unfolding find_row
is_listed-none id f [] h = refl
is_listed-none id f ((i, q) ∷ rows) h = ground (arith, is_listed-none id f rows)

is_listed-cons :
    (b : Bool) (id i : ℕ) (q : CardEmiPlan) (rows : List (ℕ × CardEmiPlan))
    → is_listed id (if b then (i, q) ∷ rows else rows) ≡ ((b && i == id) || is_listed id rows)
is_listed-cons true id i q rows = refl
is_listed-cons false id i q rows = refl

or_false : (b : Bool) → ((b && true) || false) ≡ b
or_false true = refl
or_false false = refl

and_false : (b c : Bool) → ((b && false) || c) ≡ c
and_false true c = refl
and_false false c = refl

is_listed-keep :
    (id : ℕ) (f : CardEmiPlan → Bool) (rows : List (ℕ × CardEmiPlan)) (p : CardEmiPlan)
    → IsKeyed rows
    → find_row id rows ≡ some p
    → is_listed id (keep (λ r. f r.1) rows) ≡ f p
unfolding find_row
is_listed-keep id f [] p k h = cc
is_listed-keep id f ((i, q) ∷ rows) p k h =
    is_listed-cons (f q) id i q (keep (λ r. f r.1) rows) ∙ elim (Bool-cases (i == id)) [
      | inl e ↦
          let same : i ≡ id = (==_iff i id).0 e in
          let found : q ≡ p = some-injective _ _ (ground arith) in
          ap (λ c. (f q && c) || is_listed id (keep (λ r. f r.1) rows)) e
          ∙ ap (λ c. (f q && true) || c)
              (is_listed-none id f rows (ap (λ j. find_row j rows) (sym same) ∙ k.0))
          ∙ or_false (f q)
          ∙ ap f found
      | inr e ↦
          ap (λ c. (f q && c) || is_listed id (keep (λ r. f r.1) rows)) e
          ∙ and_false (f q) _
          ∙ is_listed-keep id f rows p k.1 (ground arith)
    ]

-- Among plans with distinct keys, a plan is closed exactly where it is the user's, active, and has no
-- instalment left that is not paid; every other plan is as it was, and so are the instalments.
pub close_fully_paid_emi_plans-closes :
    (user : ℕ) (s : PlanStore) (id : ℕ) (p : CardEmiPlan)
    → IsKeyed s.plans.rows
    → find_row id s.plans.rows ≡ some p
    → ((close_fully_paid_emi_plans user s).installments ≡ s.installments)
      × (find_row id (close_fully_paid_emi_plans user s).plans.rows
          ≡ some (
              if (p.user_id == user && is_active p.status)
                && not (ltb 0 (outstanding id s.installments.rows))
              then closed_plan p
              else p))
unfolding close_fully_paid_emi_plans
close_fully_paid_emi_plans-closes user s id p keyed h = (
  close_each-keeps listed s,
  find_row-close_each id listed s p h
      ∙ ap (λ b. some (if b && not (unpaid_left id s) then closed_plan p else p))
          (is_listed-keep id (λ p. p.user_id == user && is_active p.status) s.plans.rows p keyed h),
)
  where
    listed : List (ℕ × CardEmiPlan)
    listed = keep (λ r. r.1.user_id == user && is_active r.1.status) s.plans.rows

-- What blocks the limit of a user's card.
abbrev pub blocking : PlanStore → ℕ → ℕ → List (ℕ × CardEmiInstallment)
blocking s user card = keep (λ r. is_blocking s user card r.1) s.installments.rows

is_blocking-foreclosed :
    (id : ℕ) (s : PlanStore) (user card : ℕ) (i : CardEmiInstallment)
    → (i.plan_id == id) ≡ false
    → is_blocking (foreclose_emi_plan id s) user card i ≡ is_blocking s user card i
unfolding is_blocking foreclose_emi_plan update
is_blocking-foreclosed id s user card i e =
    ap (λ o. i.user_id == user && i.account_id == card && is_scheduled i.status && active_plan o)
      (find_row-update_row_ne id i.plan_id _ _ (λ same. ground arith))

keep-cons {ℓ} :
    {A : Type ℓ} (p : A → Bool) (b : Bool) (x : A) (ys : List A)
    → keep p (if b then x ∷ ys else ys) ≡ (if b && p x then x ∷ keep p ys else keep p ys)
keep-cons p true x ys = refl
keep-cons p false x ys = refl

-- Two tests one after the other are their conjunction.
keep-keep {ℓ} :
    {A : Type ℓ} (p q r : A → Bool)
    → ((x : A) → (q x && p x) ≡ r x)
    → (xs : List A) → keep p (keep q xs) ≡ keep r xs
keep-keep p q r h [] = refl
keep-keep p q r h (x ∷ xs) =
    keep-cons p (q x) x (keep q xs)
    ∙ ap (λ b. if b then x ∷ keep p (keep q xs) else keep p (keep q xs)) (h x)
    ∙ ap (λ rest. if r x then x ∷ rest else rest) (keep-keep p q r h xs)

no_case : (b : Bool) → (b && false) ≡ false
no_case true = refl
no_case false = refl

yes_case : (b : Bool) → (b && true) ≡ b
yes_case true = refl
yes_case false = refl

-- A scheduled instalment is dropped, and one that is not scheduled blocks nothing.
dropped : (u a d c : Bool) → (not d && (u && a && d && c)) ≡ false
dropped u a true c = refl
dropped true true false c = refl
dropped true false false c = refl
dropped false a false c = refl

blocks_unless :
    (id : ℕ) (s : PlanStore) (user card : ℕ) (i : CardEmiInstallment)
    → (not (i.plan_id == id && is_scheduled i.status)
        && is_blocking (foreclose_emi_plan id s) user card i)
      ≡ (is_blocking s user card i && not (i.plan_id == id))
unfolding is_blocking foreclose_emi_plan update
blocks_unless id s user card i = elim (Bool-cases (i.plan_id == id)) [
  | inl e ↦ rw e (
      dropped (i.user_id == user) (i.account_id == card) (is_scheduled i.status)
        (active_plan (find_row i.plan_id (foreclose_emi_plan id s).plans.rows))
      ∙ sym (no_case (is_blocking s user card i)))
  | inr e ↦
      rw e (is_blocking-foreclosed id s user card i e ∙ sym (yes_case (is_blocking s user card i)))
]

-- After a foreclosure the instalments that block a card's limit are exactly those that blocked it before
-- and belong to other plans, in their
-- order.
foreclose_emi_plan-unblocks :
    (id : ℕ) (s : PlanStore) (user card : ℕ)
    → blocking (foreclose_emi_plan id s) user card
      ≡ keep (λ r. not (r.1.plan_id == id)) (blocking s user card)
unfolding foreclose_emi_plan
foreclose_emi_plan-unblocks id s user card =
    keep-keep (λ r. is_blocking (foreclose_emi_plan id s) user card r.1)
      (λ r. not (r.1.plan_id == id && is_scheduled r.1.status))
      (λ r. is_blocking s user card r.1 && not (r.1.plan_id == id))
      (λ r. blocks_unless id s user card r.1) s.installments.rows
    ∙ sym (
        keep-keep (λ r. not (r.1.plan_id == id)) (λ r. is_blocking s user card r.1)
          (λ r. is_blocking s user card r.1 && not (r.1.plan_id == id)) (λ r. refl)
          s.installments.rows)
