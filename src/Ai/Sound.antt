-- ===== src/Ai/Sound.antt =====
-- What a registry that passes `Validate` gives to those that look an action up.
use finnri_api.Base.{
  ◌≤◌, ◌<◌, ◌≡◌, ℕ, refl, true, false, not, ◌||◌, sym, ◌∙◌, Bool-cases, inl, inr, String, str_eq,
  eq_iff, [], ◌∷◌, arith, some,
}
use mathlib.Core.Option.{some-injective}
use finnri_api.Base.Int.{ℤ, pos, negsuc, ltb_ℤ}
use finnri_api.Result.{ok}
use finnri_api.Ai.{
  Action, ActionRegistry, lookup, require, validate_all, validate_action, validate,
  default_action_registry,
}

-- What `Validate` asks of the entry under a code: credits that are integers of their own, of which the price
-- is above zero and the maximum no less than the price.
pub record IsPriced (code : String) (a : Action) : Type 0 where
  pub price : ℕ
  pub maximum : ℕ
  pub coded : a.code ≡ code
  pub priced : a.default_credits ≡ pos price
  pub limited : a.max_credits ≡ pos maximum
  pub positive : 0 < price
  pub capped : price ≤ maximum

-- What the test of `Validate` says of two integers.
price_agrees :
    (code : String) (a : Action)
    → a.code ≡ code
    → (p m : ℤ) → a.default_credits ≡ p
    → a.max_credits ≡ m
    → (not (ltb_ℤ (pos 0) p) || ltb_ℤ m p) ≡ false
    → IsPriced code a
price_agrees code a c (pos p) (pos m) e f h = record {
  price = p;
  maximum = m;
  coded = c;
  priced = e;
  limited = f;
  positive = ground arith;
  capped = ground arith;
}
price_agrees code a c (pos p) (negsuc m) e f h = absurd (ground arith)
price_agrees code a c (negsuc p) m e f h = absurd (cc h)

validate_action-IsPriced :
    (code : String) (a : Action) → a.code ≡ code → validate_action a ≡ ok tt → IsPriced code a
unfolding validate_action
validate_action-IsPriced code a c v =
    price_agrees code a c a.default_credits a.max_credits refl refl (ground arith)

validate_all-IsPriced :
    (m : ActionRegistry) (code : String) (a : Action)
    → validate_all m ≡ ok tt
    → lookup m code ≡ some a
    → IsPriced code a
unfolding validate_all lookup
validate_all-IsPriced [] code a v h = absurd (cc h)
validate_all-IsPriced ((j, b) ∷ m) code a v h =
    let keyed : str_eq j b.code ≡ true = ground arith in
    let valid : validate_action b ≡ ok tt = ground arith in
    let others : validate_all m ≡ ok tt = ground arith in
    elim (Bool-cases (str_eq j code)) [
      | inl e ↦
          let here : b ≡ a = some-injective _ _ (sym (rw e refl) ∙ h) in
          rw (← here)
            (validate_action-IsPriced code b (ground (arith, eq_iff j b.code, eq_iff j code)) valid)
      | inr e ↦ validate_all-IsPriced m code a others (sym (rw e refl) ∙ h)
    ]

-- In a registry that passes its validation, an action that `Require` returns has the code asked for,
-- a positive price and a maximum that is no less.
pub require-IsPriced :
    (m : ActionRegistry) (code : String) {a : Action}
    → validate m ≡ ok tt
    → require m code ≡ ok a
    → IsPriced code a
unfolding validate require
require-IsPriced [] code v h = cc
require-IsPriced (x ∷ m) code {a} v h = validate_all-IsPriced (x ∷ m) code a v (ground arith)

-- The default registry passes its validation.
pub default_action_registry-validate : validate default_action_registry ≡ ok tt
unfolding validate default_action_registry
default_action_registry-validate = refl
