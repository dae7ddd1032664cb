-- ===== src/Billing/Grants/Adds.antt =====
-- How many grants a call for a subscription's period adds.
use finnri_api.Base.{
  ℕ, ◌+◌, leb, ◌==◌, ◌≡◌, refl, sym, ap, ◌∙◌, Bool, true, false, inl, inr, String, Option, none,
  some, Option-cases, length, length-append, [], ◌∷◌, if◌then◌else◌, arith,
}
use finnri_api.Result.{Failure, Result, ok, err}
use finnri_api.Table.{first_row, insert}
use finnri_api.Billing.Data.{UserSubscription, CreditGrant}
use finnri_api.Billing.Tx.{Store, Tx, pure, fail}
use finnri_api.Billing.Runs.{bind-ok, ok-injective}
use finnri_api.Billing.Allowance.{CreditService}
use finnri_api.Billing.Grants.{
  Granted, open_grant, find_or_open, or_existing, is_period_grant, period_grant, period_key,
  open_period, grant_subscription_period,
}
use finnri_api.Billing.Grants.Once.{open_grant-ok, find_or_open-none, find_or_open-some}

-- One grant more where it is new, and none otherwise.
abbrev pub Adds : Store → Result (Granted × Store) → Type 0
Adds s (ok ((g, new), t)) = length t.grants.rows ≡ length s.grants.rows + (if new then 1 else 0)
Adds s (err e) = Unit

find_or_open-Adds :
    (p : CreditGrant → Bool) (g : CreditGrant) (reason key : String) (s : Store)
    → (r : Result (Granted × Store)) → find_or_open p g reason key s ≡ r
    → Adds s r
find_or_open-Adds p g reason key s (err e) h = tt
find_or_open-Adds p g reason key s (ok ((x, new), t)) h =
    elim (Option-cases (first_row p s.grants.rows)) [
      | inl n ↦
          let (opened, s1, made, rest) =
            bind-ok (open_grant g reason key) (λ opened. pure (some opened, true)) s
              (sym (find_or_open-none p g reason key s n) ∙ h) in
          let ends : ◌≡◌ {A = Result (Granted × Store)} (ok ((some opened, true), s1))
              (ok ((x, new), t)) =
            unfold pure in rest in
          let (is_it, grants) = open_grant-ok g reason key s made in
          let is_new : true ≡ new = ap (λ y. y.1) (ok-injective ends).0 in
          let held : t.grants.rows ≡ (insert s.grants g).rows =
            ap (λ v. v.grants.rows) (sym (ok-injective ends).1) ∙ ap (λ v. v.rows) grants in
          rw (held, ← is_new)
            (unfold insert in
              omega (arith, length-append s.grants.rows ((s.grants.next_id, g) ∷ [])))
      | inr (r, f) ↦
          let ends : ◌≡◌ {A = Result (Granted × Store)} (ok ((some r, false), s))
              (ok ((x, new), t)) =
            sym (find_or_open-some p g reason key s f) ∙ h in
          let is_new : false ≡ new = ap (λ y. y.1) (ok-injective ends).0 in
          let same : s ≡ t = (ok-injective ends).1 in rw (← same, ← is_new) (omega arith)
    ]

or_existing-Adds :
    (p : CreditGrant → Bool) (m : Tx Granted) (s : Store)
    → ((r : Result (Granted × Store)) → m s ≡ r → Adds s r)
    → Adds s (or_existing p m s)
unfolding or_existing
or_existing-Adds p m s adds = after (m s) refl
  where
    again :
        (o : Option (ℕ × CreditGrant)) (e : Failure)
        → Adds s (elim o [ some (i, a) ↦ ok ((some (i, a), false), s) | none ↦ err e ])
    again none e = tt
    again (some (i, a)) e = omega arith

    after :
        (r : Result (Granted × Store))
        → m s ≡ r
        → Adds s (elim r [
          | ok (y, s') ↦ ok (y, s')
          | err e ↦ elim (first_row p s.grants.rows) [
            | some (i, a) ↦ ok ((some (i, a), false), s)
            | none ↦ err e
          ]
        ])
    after (ok ((y, new), s')) e = adds (ok ((y, new), s')) e
    after (err f) e = again (first_row p s.grants.rows) f

guard-Adds :
    (b : Bool) (f : Failure) (m : Tx Granted) (s : Store)
    → Adds s (m s)
    → Adds s ((if b then fail f else m) s)
unfolding fail
guard-Adds true f m s h = tt
guard-Adds false f m s h = h

pub grant_subscription_period-Adds :
    (svc : CreditService) (id : ℕ) (sub : UserSubscription) (credits from expires : ℕ) (s : Store)
    → Adds s (grant_subscription_period svc id sub credits from expires s)
unfolding grant_subscription_period open_period
grant_subscription_period-Adds svc id sub credits from expires s = guard-Adds (id == 0) _ _ s (
    guard-Adds (sub.user_id == 0) _ _ s (
      guard-Adds (credits == 0) _ _ s (
        guard-Adds (leb expires from) _ _ s (
          or_existing-Adds (is_period_grant id from) (open_period svc id sub credits from expires) s
            (find_or_open-Adds (is_period_grant id from) (period_grant id sub credits from expires)
              "subscription_period_grant" (period_key svc id from) s)))))
