-- ===== src/Billing/Grants/Once.antt =====
-- A grant that is asked for again is not given again.
use finnri_api.Base.{
  ℕ, leb, ◌==◌, ==_iff, ◌≡◌, refl, sym, ap, subst, ◌∙◌, Bool, true, false, inl, inr, String, Option,
  none, some, Option-cases, Bool-cases, List, [], ◌∷◌, holds, arith,
}
use finnri_api.Base.Members.{Has}
use finnri_api.Result.{Failure, Result, ok, err}
use finnri_api.Table.{first_row, insert}
use finnri_api.Table.Search.{first_row-append, first_row-holds}
use finnri_api.Billing.Data.{
  UserSubscription, CreditGrant, GrantSource, grant, subscription_period, same_source,
}
use finnri_api.Billing.Tx.{Store, Tx, pure, gets, modify, ◌>>=◌}
use finnri_api.Billing.Runs.{bind-ok, guard-ok, ok-injective}
use finnri_api.Billing.Allowance.{CreditService}
use finnri_api.Billing.Ledger.{create_grant_ledger, grant_entry}
use finnri_api.Billing.Balance.Rules.{OnSuccess}
use finnri_api.Billing.Balance.Moves.{create_ledger-OnSuccess}
use finnri_api.Billing.Grants.{
  Granted, open_grant_with, open_grant, find_or_open, or_existing, is_period_grant, period_grant,
  period_key, user_trial_grant, user_trial_key, open_period, grant_subscription_period,
  is_user_trial, ensure_user_trial, ensure_logged_in_free_trial_grant,
}

pub open_grant-ok :
    (g : CreditGrant) (reason key : String) (s : Store) {r : ℕ × CreditGrant} {t : Store}
    → open_grant g reason key s ≡ ok (r, t)
    → (r ≡ (s.grants.next_id, g)) × (t.grants ≡ insert s.grants g)
unfolding open_grant open_grant_with create_grant_ledger gets modify pure ◌>>=◌
open_grant-ok g reason key s {r} {t} h =
    let s' = record s { grants = insert s.grants g } in
    let x = grant_entry s.grants.next_id g grant g.credits_granted reason key in
    let (u, s1, p, rest) =
      bind-ok (create_grant_ledger s.grants.next_id g grant g.credits_granted reason key)
        (λ u. pure (s.grants.next_id, g)) s' h in
    let kept : OnSuccess (λ v. v.grants ≡ s'.grants) (ok (u, s1)) =
      subst (OnSuccess (λ v. v.grants ≡ s'.grants)) p
        (create_ledger-OnSuccess (λ v. v.grants ≡ s'.grants) x s' refl) in
    let ends : ◌≡◌ {A = Result ((ℕ × CreditGrant) × Store)} (ok ((s.grants.next_id, g), s1))
        (ok (r, t)) =
      rest in
    (sym (ok-injective ends).0, ap (λ v. v.grants) (sym (ok-injective ends).1) ∙ kept)

found_or_opened : CreditGrant → String → String → Option (ℕ × CreditGrant) → Tx Granted
found_or_opened g reason key o = elim o [
  | none ↦ open_grant g reason key >>= λ opened. pure (some opened, true)
  | some r ↦ pure (some r, false)
]

pub find_or_open-none :
    (p : CreditGrant → Bool) (g : CreditGrant) (reason key : String) (s : Store)
    → first_row p s.grants.rows ≡ none
    → find_or_open p g reason key s
      ≡ (open_grant g reason key >>= λ opened. pure (some opened, true)) s
unfolding find_or_open found_or_opened gets ◌>>=◌
find_or_open-none p g reason key s h = ap (λ o. found_or_opened g reason key o s) h

pub find_or_open-some :
    (p : CreditGrant → Bool) (g : CreditGrant) (reason key : String) (s : Store)
    {r : ℕ × CreditGrant}
    → first_row p s.grants.rows ≡ some r
    → find_or_open p g reason key s ≡ ok ((some r, false), s)
unfolding find_or_open found_or_opened gets ◌>>=◌ pure
find_or_open-some p g reason key s h = ap (λ o. found_or_opened g reason key o s) h

-- The grant that is returned is the one that the next call finds.
find_or_open-found :
    (p : CreditGrant → Bool) (g : CreditGrant) (reason key : String) (s : Store) {x : Granted}
    {t : Store}
    → p g ≡ true
    → find_or_open p g reason key s ≡ ok (x, t)
    → first_row p t.grants.rows ≡ x.0
find_or_open-found p g reason key s {x} {t} fits h =
    elim (Option-cases (first_row p s.grants.rows)) [
      | inl e ↦
          let (opened, s1, made, rest) =
            bind-ok (open_grant g reason key) (λ opened. pure (some opened, true)) s
              (sym (find_or_open-none p g reason key s e) ∙ h) in
          let ends : ◌≡◌ {A = Result (Granted × Store)} (ok ((some opened, true), s1)) (ok (x, t)) =
            unfold pure in rest in
          let (is_it, grants) = open_grant-ok g reason key s made in
          let held : t.grants ≡ insert s.grants g =
            ap (λ v. v.grants) (sym (ok-injective ends).1) ∙ grants in
          let appended : first_row p (insert s.grants g).rows ≡ some (s.grants.next_id, g) =
            unfold insert in first_row-append p s.grants.next_id g s.grants.rows e fits in
          ap (λ v. first_row p v.rows) held
          ∙ appended
          ∙ ap some (sym is_it)
          ∙ ap (λ y. y.0) (ok-injective ends).0
      | inr (r, e) ↦
          let ends : ◌≡◌ {A = Result (Granted × Store)} (ok ((some r, false), s)) (ok (x, t)) =
            sym (find_or_open-some p g reason key s e) ∙ h in
          let same : s ≡ t = (ok-injective ends).1 in
          rw (← same) (e ∙ ap (λ y. y.0) (ok-injective ends).0)
    ]

module _ (p : CreditGrant → Bool) (g : CreditGrant) (reason key : String) (fits : p g ≡ true) where
  or_existing-found :
      (s : Store) {x : Granted} {t : Store}
      → or_existing p (find_or_open p g reason key) s ≡ ok (x, t)
      → first_row p t.grants.rows ≡ x.0
  unfolding or_existing
  or_existing-found s {x} {t} h = after (find_or_open p g reason key s) refl h
    where
      retried :
          (o : Option (ℕ × CreditGrant))
          → first_row p s.grants.rows ≡ o
          → (e : Failure)
          → ◌≡◌ {A = Result (Granted × Store)}
              (elim o [ some (i, a) ↦ ok ((some (i, a), false), s) | none ↦ err e ])
              (ok (x, t))
          → first_row p t.grants.rows ≡ x.0
      retried none n e ends = absurd (cc ends)
      retried (some (i, a)) n e ends =
          let same : s ≡ t = (ok-injective ends).1 in
          rw (← same) (n ∙ ap (λ y. y.0) (ok-injective ends).0)

      after :
          (r : Result (Granted × Store))
          → find_or_open p g reason key s ≡ r
          → ◌≡◌ {A = Result (Granted × Store)}
              (elim r [
                | ok (y, s') ↦ ok (y, s')
                | err e ↦ elim (first_row p s.grants.rows) [
                  | some (i, a) ↦ ok ((some (i, a), false), s)
                  | none ↦ err e
                ]
              ])
              (ok (x, t))
          → first_row p t.grants.rows ≡ x.0
      after (ok (y, s')) e ends =
          let found = find_or_open-found p g reason key s fits e in
          let same : s' ≡ t = (ok-injective ends).1 in
          rw (← same) (found ∙ ap (λ z. z.0) (ok-injective ends).0)
      after (err e) f ends = retried (first_row p s.grants.rows) refl e ends

or_existing-again :
    (p : CreditGrant → Bool) (g : CreditGrant) (reason key : String) (t : Store)
    {r : ℕ × CreditGrant}
    → first_row p t.grants.rows ≡ some r
    → or_existing p (find_or_open p g reason key) t ≡ ok ((some r, false), t)
unfolding or_existing
or_existing-again p g reason key t found =
    rw (find_or_open-some p g reason key t found, or_existing) refl

same_key : (n : ℕ) → (n == n) ≡ true
same_key n = (==_iff n n).1 refl

-- A row that passes is found, or one before it.
first_row-Has :
    (p : CreditGrant → Bool) (k : ℕ) (g : CreditGrant) (rows : List (ℕ × CreditGrant))
    → Has (k, g) rows
    → p g ≡ true
    → (r : ℕ × CreditGrant) × (first_row p rows ≡ some r)
unfolding first_row
first_row-Has p k g [] h e = elim h [ ]
first_row-Has p k g ((i, x) ∷ rows) h e = elim (Bool-cases (p x)) [
  | inl q ↦ ((i, x), rw q refl)
  | inr q ↦ elim h [
    | inl here ↦ absurd (cc (ap (λ r. p r.1) here, q, e))
    | inr later ↦ let (r, found) = first_row-Has p k g rows later e in (r, rw q found)
  ]
]

-- A grant is that of a subscription's period, however much of it is spent.
pub record IsPeriodGrant (id from : ℕ) (g : CreditGrant) : Type 0 where
  pub subscription : g.subscription_id ≡ some id
  pub begins : g.valid_from ≡ from
  pub kind : g.source ≡ subscription_period

IsPeriodGrant-passes :
    (id from : ℕ) (g : CreditGrant) → IsPeriodGrant id from g → is_period_grant id from g ≡ true
IsPeriodGrant-passes id from g h =
    rw (h.subscription, h.begins, h.kind, same_key id, same_key from) refl

holds_value : (o : Option ℕ) (n : ℕ) → holds o n ≡ true → o ≡ some n
holds_value none n h = absurd (cc h)
holds_value (some m) n h = ap some ((==_iff m n).0 h)

is_subscription_period :
    (x : GrantSource) → same_source x subscription_period ≡ true → x ≡ subscription_period
is_subscription_period x h = ground arith

passes-IsPeriodGrant :
    (id from : ℕ) (g : CreditGrant) → is_period_grant id from g ≡ true → IsPeriodGrant id from g
passes-IsPeriodGrant id from g h = record {
  subscription = holds_value g.subscription_id id (ground arith);
  begins = ground arith;
  kind = is_subscription_period g.source (ground arith);
}

-- A call for a subscription's period that succeeds returns a grant of that period. In any later store whose
-- grants still hold one of that period under any key, however much of it is spent or who called
-- what in between, a valid call for that period succeeds, returns a grant of the period that was
-- there, gives nothing new, and leaves the whole store as it is.
pub grant_subscription_period-once :
    (svc : CreditService) (id : ℕ) (sub : UserSubscription) (credits from expires : ℕ) (s : Store)
    {r : ℕ × CreditGrant} {new : Bool} {t : Store}
    → grant_subscription_period svc id sub credits from expires s ≡ ok ((some r, new), t)
    → (later : CreditService) (between : Store) (k : ℕ) (g : CreditGrant)
    → Has (k, g) between.grants.rows
    → IsPeriodGrant id from g
    → IsPeriodGrant id from r.1
      × ((q : ℕ × CreditGrant) × (grant_subscription_period later id sub credits from expires
              between
            ≡ ok ((some q, false), between))
          × IsPeriodGrant id from q.1)
unfolding grant_subscription_period open_period
grant_subscription_period-once svc id sub credits from expires s {r = r} {t = t} h later between k g
      there of =
    let (e1, h1) = guard-ok (id == 0) _ _ s h in
    let (e2, h2) = guard-ok (sub.user_id == 0) _ _ s h1 in
    let (e3, h3) = guard-ok (credits == 0) _ _ s h2 in
    let (e4, h4) = guard-ok (leb expires from) _ _ s h3 in
    let p = is_period_grant id from in
    let found =
      or_existing-found p (period_grant id sub credits from expires) "subscription_period_grant"
        (period_key svc id from) (rw (same_key id, same_key from) refl) s h4 in
    (
      passes-IsPeriodGrant id from r.1 (first_row-holds p r.0 r.1 t.grants.rows found),
      let (q, earlier) =
            first_row-Has p k g between.grants.rows there (IsPeriodGrant-passes id from g of) in
          (
            q,
            rw (e1, e2, e3, e4)
                (or_existing-again p (period_grant id sub credits from expires)
                  "subscription_period_grant" (period_key later id from) between earlier),
            passes-IsPeriodGrant id from q.1
                (first_row-holds p q.0 q.1 between.grants.rows earlier),
          ),
    )

-- The free trial that a user was given once is returned by any later call for that user, which
-- gives nothing new and leaves the whole store as it is.
ensure_logged_in_free_trial_grant-once :
    (svc : CreditService) (user : ℕ) (s : Store) {r : ℕ × CreditGrant} {new : Bool} {t : Store}
    → ensure_logged_in_free_trial_grant svc user s ≡ ok ((some r, new), t)
    → (later : CreditService)
    → ensure_logged_in_free_trial_grant later user t ≡ ok ((some r, false), t)
unfolding ensure_logged_in_free_trial_grant ensure_user_trial
ensure_logged_in_free_trial_grant-once svc user s {t = t} h later =
    let (e, run) = guard-ok (user == 0) _ _ s h in
    let found =
      or_existing-found (is_user_trial user) (user_trial_grant svc user) "free_trial_grant"
        (user_trial_key user) (rw (same_key user) refl) s run in
    rw e (
      or_existing-again (is_user_trial user) (user_trial_grant later user) "free_trial_grant"
        (user_trial_key user) t found)
