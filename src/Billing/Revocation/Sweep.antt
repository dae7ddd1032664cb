-- ===== src/Billing/Revocation/Sweep.antt =====
-- A write-off is complete: no grant that it looks for is left with credits.
use mathlib.Core.Option
use mathlib.Core.Option.{some-injective}
use finnri_api.Base.{
  ℕ, suc, ◌+◌, ltb, ◌==◌, ==_iff, ◌≡◌, refl, sym, ap, subst, ◌∙◌, Bool, true, false, Bool-cases,
  inl, inr, ◌⊎◌, if◌then◌else◌, String, append, decimal, some, List, [], ◌∷◌, arith,
}
use finnri_api.Result.{ok}
use finnri_api.Table.{find_row, update, select}
use finnri_api.Table.Laws.{find_row-update_row_cases, find_row-update_row_self}
use finnri_api.Billing.Data.{CreditGrant, expiry}
use finnri_api.Billing.Tx.{Store, pure, gets, ◌>>=◌}
use finnri_api.Billing.Allowance.{CreditService}
use finnri_api.Billing.Ledger.{create_grant_ledger, grant_entry}
use finnri_api.Billing.Balance.Rules.{OnSuccess, Keeps-pure, bind-OnSuccess}
use finnri_api.Billing.Balance.Moves.{create_ledger-then}
use finnri_api.Billing.Revocation.{
  emptied, is_unchanged, write_off, revoke_grants, is_period_of, revoke_subscription_credits,
  is_expired, expire_grants, expire_credits,
}

abbrev Among : ℕ → CreditGrant → List (ℕ × CreditGrant) → Type 0
Among id g [] = ⊥
Among id g ((i, a) ∷ rows) = ((i ≡ id) × (a ≡ g)) ⊎ Among id g rows

module _ (p : CreditGrant → Bool) (spent : (g : CreditGrant) → p (emptied g) ≡ false) where
  -- Whatever grant still passes the test is among the rows to come.
  Covers : List (ℕ × CreditGrant) → Store → Type 0
  Covers rows s =
      (id : ℕ) (g : CreditGrant) → find_row id s.grants.rows ≡ some g → p g ≡ true → Among id g rows

  select-Among :
      (rows : List (ℕ × CreditGrant)) (id : ℕ) (g : CreditGrant)
      → find_row id rows ≡ some g
      → p g ≡ true
      → Among id g (select p rows)
  unfolding select find_row
  select-Among [] id g h q = absurd (cc h)
  select-Among ((i, a) ∷ rows) id g h q = elim (Bool-cases (i == id)) [
    | inl e ↦
        let same : a ≡ g = some-injective _ _ (rw e refl ∙ h) in
        let passes : p a ≡ true = rw same q in rw passes (inl ((==_iff i id).0 e, same))
    | inr e ↦
        let later = select-Among rows id g (rw e refl ∙ h) q in
        elim (Bool-cases (p a)) [ inl f ↦ rw f (inr later) | inr f ↦ rw f later ]
  ]

  -- An emptied grant does not pass.
  emptied-Covers :
      (i : ℕ) (a : CreditGrant) (rows : List (ℕ × CreditGrant)) (s : Store)
      → Covers ((i, a) ∷ rows) s
      → Covers rows (record s { grants = update s.grants i emptied })
  unfolding Covers update
  emptied-Covers i a rows s h id g found q =
      elim (find_row-update_row_cases i id emptied s.grants.rows found) [
        | inl (old, was, now_) ↦ absurd (cc (spent old, q, ap p now_))
        | inr was ↦ elim (h id g was q) [
          | inl (same, is_it) ↦
              let here : find_row i s.grants.rows ≡ some g = rw same was in
              let moved : find_row id (update s.grants i emptied).rows ≡ some (emptied g) =
                rw (← same) (
                  find_row-update_row_self i emptied s.grants.rows
                  ∙ ap (Option.map emptied) here) in
              let gone : g ≡ emptied g = some-injective _ _ (sym found ∙ moved) in
              absurd (cc (spent g, q, ap p gone))
          | inr later ↦ later
        ]
      ]

  -- A row that has changed meanwhile is not the one that was looked for.
  changed-Covers :
      (i : ℕ) (a : CreditGrant) (rows : List (ℕ × CreditGrant)) (s : Store)
      → is_unchanged i a.credits_remaining s ≡ false
      → Covers ((i, a) ∷ rows) s
      → Covers rows s
  unfolding Covers is_unchanged
  changed-Covers i a rows s changed h id g found q = elim (h id g found q) [
    | inl (same, is_it) ↦
        let here : find_row i s.grants.rows ≡ some g = rw same found in
        absurd (ground (arith, here, ap (λ x. x.credits_remaining) is_it))
    | inr later ↦ later
  ]

  write_off-Covers :
      (reason key : String) (r : ℕ × CreditGrant) (rows : List (ℕ × CreditGrant)) (s : Store)
      → Covers (r ∷ rows) s
      → OnSuccess (Covers rows) (write_off reason key r s)
  unfolding write_off create_grant_ledger
  write_off-Covers reason key (i, a) rows s h =
      elim (Bool-cases (is_unchanged i a.credits_remaining s)) [
        | inl e ↦
            let x =
              grant_entry i (emptied a) expiry a.credits_remaining reason
                (append key (decimal i)) in
            rw e (
              create_ledger-then (Covers rows) x (λ t. pure a.credits_remaining)
                (record s { grants = update s.grants i emptied })
                (unfold Covers in emptied-Covers i a rows s h) (Keeps-pure a.credits_remaining))
        | inr e ↦ rw e (unfold pure in changed-Covers i a rows s e h)
      ]

  revoke_grants-Covers :
      (reason key : String) (rows : List (ℕ × CreditGrant)) (revoked : ℕ) (s : Store)
      → Covers rows s
      → OnSuccess (Covers []) (revoke_grants reason key rows revoked s)
  unfolding revoke_grants
  revoke_grants-Covers reason key [] revoked s h = unfold pure in h
  revoke_grants-Covers reason key (r ∷ rows) revoked s h =
      bind-OnSuccess (Covers rows) (Covers []) (write_off reason key r)
        (λ taken. revoke_grants reason key rows (revoked + taken)) s
        (write_off-Covers reason key r rows s h)
        (λ taken. revoke_grants-Covers reason key rows (revoked + taken))

  expire_grants-Covers :
      (rows : List (ℕ × CreditGrant)) (expired : ℕ) (s : Store)
      → Covers rows s
      → OnSuccess (Covers []) (expire_grants rows expired s)
  unfolding expire_grants
  expire_grants-Covers [] expired s h = unfold pure in h
  expire_grants-Covers (r ∷ rows) expired s h =
      bind-OnSuccess (Covers rows) (Covers []) (write_off "credit_grant_expiry" "expiry:grant:" r)
        (λ taken. expire_grants rows (if ltb 0 taken then suc expired else expired)) s
        (write_off-Covers "credit_grant_expiry" "expiry:grant:" r rows s h)
        (λ taken. expire_grants-Covers rows (if ltb 0 taken then suc expired else expired))

  none_left :
      (id : ℕ) (g : CreditGrant) (t : Store)
      → Covers [] t
      → find_row id t.grants.rows ≡ some g
      → p g ≡ false
  unfolding Covers
  none_left id g t h found = elim (Bool-cases (p g)) [ inl q ↦ absurd (h id g found q) | inr q ↦ q ]

-- After an expiry that succeeded, no grant that has ended by its clock has credits left.
pub expire_credits_complete :
    (svc : CreditService) (s : Store) {n : ℕ} {t : Store}
    → expire_credits svc s ≡ ok (n, t)
    → (id : ℕ) (g : CreditGrant) → find_row id t.grants.rows ≡ some g
    → is_expired svc.now g ≡ false
unfolding expire_credits gets ◌>>=◌
expire_credits_complete svc s run id g found =
    let p = is_expired svc.now in
    let rows = select p s.grants.rows in
    let spent : (a : CreditGrant) → p (emptied a) ≡ false = λ a. ground arith in
    none_left p spent id g _
      (subst (OnSuccess (Covers p spent [])) run (
        expire_grants-Covers p spent rows 0 s
          (unfold Covers in select-Among p spent s.grants.rows)))
      found

-- After the credits of a refunded subscription were revoked, no period grant of it has credits left.
pub revoke_subscription_credits_complete :
    (subscription : ℕ) (s : Store) {n : ℕ} {t : Store}
    → revoke_subscription_credits subscription s ≡ ok (n, t)
    → (id : ℕ) (g : CreditGrant) → find_row id t.grants.rows ≡ some g
    → is_period_of subscription g ≡ false
unfolding revoke_subscription_credits gets ◌>>=◌
revoke_subscription_credits_complete subscription s run id g found =
    let p = is_period_of subscription in
    let rows = select p s.grants.rows in
    let spent : (a : CreditGrant) → p (emptied a) ≡ false = λ a. ground arith in
    none_left p spent id g _
      (subst (OnSuccess (Covers p spent [])) run (
        revoke_grants-Covers p spent "subscription_refund_revoked" "refund:grant:" rows 0 s
          (unfold Covers in select-Among p spent s.grants.rows)))
      found
