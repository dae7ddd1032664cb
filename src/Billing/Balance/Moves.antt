-- ===== src/Billing/Balance/Moves.antt =====
-- Each pair of a balance update and its ledger row keeps the accounts balanced.
use finnri_api.Base.{
  ℕ, ◌+◌, ◌-◌, ◌≤◌, min, leb, ◌==◌, ◌≡◌, refl, true, Bool-cases, Option-cases, inl, inr, ◌⊎◌,
  String, append, decimal, Option, some, arith,
}
use finnri_api.Result.{
  Failure, ok, err, grant_balance_changed, ledger_credits_not_positive, conflict,
}
use finnri_api.Table.{find_row, insert, update}
use finnri_api.Billing.Data.{CreditGrant, CreditLedger, expiry, grant}
use finnri_api.Billing.Tx.{Store, Tx, pure, ◌>>=◌}
use finnri_api.Billing.Ledger.{create_ledger, create_grant_ledger, grant_entry, is_recorded}
use finnri_api.Billing.Debit.{withdraw, debit_grant, debit_entry, take_from}
use finnri_api.Billing.Refund.{refund_to_grant, refund_entry, give_back}
use finnri_api.Billing.Revocation.{write_off, is_unchanged, emptied}
use finnri_api.Billing.Grants.{open_grant_with}
use finnri_api.Billing.Balance.{IsSound, move-IsBalanced, open-IsBalanced}
use finnri_api.Billing.Balance.Rules.{Keeps, KeepsAccounts, Keeps-pure, OnSuccess, bind-OnSuccess}

-- A ledger row is written as it stands, or the action fails.
create_ledger-cases :
    (x : CreditLedger) (s : Store)
    → ((e : Failure) × (create_ledger x s ≡ err e))
      ⊎ (create_ledger x s ≡ ok (tt, record s { ledger = insert s.ledger x }))
unfolding create_ledger
create_ledger-cases x s = elim (Bool-cases (x.credits == 0)) [
  | inl e ↦ inl (ledger_credits_not_positive, ground arith)
  | inr e ↦ elim (Bool-cases (is_recorded x s)) [
    | inl r ↦ inl (conflict, ground arith)
    | inr r ↦ inr (ground arith)
  ]
]

pub create_ledger-OnSuccess :
    (P : Store → Type 0) (x : CreditLedger) (s : Store)
    → P (record s { ledger = insert s.ledger x })
    → OnSuccess P (create_ledger x s)
create_ledger-OnSuccess P x s h = elim (create_ledger-cases x s) [
  | inl (e, p) ↦ rw p tt
  | inr p ↦ rw p h
]

pub create_ledger-then :
    {B : Type 0} (P : Store → Type 0) (x : CreditLedger) (k : Unit {0} → Tx B) (s : Store)
    → P (record s { ledger = insert s.ledger x })
    → Keeps P (k tt)
    → OnSuccess P ((create_ledger x >>= k) s)
create_ledger-then P x k s h kk =
    bind-OnSuccess P P (create_ledger x) k s (create_ledger-OnSuccess P x s h) (λ t s'. kk.at s')

pub withdraw-cases :
    (id take : ℕ) (s : Store)
    → (withdraw id take s ≡ err grant_balance_changed)
      ⊎ ((g : CreditGrant) × (find_row id s.grants.rows ≡ some g)
          × (take ≤ g.credits_remaining)
          × (withdraw id take s
              ≡ ok (tt, record s { grants = update s.grants id (take_from take) })))
unfolding withdraw
withdraw-cases id take s = elim (Option-cases (find_row id s.grants.rows)) [
  | inl e ↦ inl (ground arith)
  | inr (g, e) ↦ elim (Bool-cases (leb take g.credits_remaining)) [
    | inl enough ↦ inr (g, e, ground arith, ground arith)
    | inr short ↦ inl (ground arith)
  ]
]

pub debit_grant-Keeps :
    (reason key : String) (event : Option ℕ) (r : ℕ × CreditGrant) (take : ℕ)
    → Keeps IsSound (debit_grant reason key event r take)
unfolding debit_grant ◌>>=◌
debit_grant-Keeps reason key event (id, g) take = record {
  at = λ s h. elim (withdraw-cases id take s) [
    | inl e ↦ rw (e, OnSuccess) tt
    | inr (cur, found, enough, e) ↦
        let x = debit_entry reason key event id g take in
        let fits : cur.credits_remaining - take ≤ cur.credits_granted =
          omega (arith, h.within id cur found) in
        rw (e, OnSuccess)
          (create_ledger-OnSuccess IsSound x
            (record s { grants = update s.grants id (take_from take) })
            (move-IsBalanced h id (take_from take) x found fits refl (omega arith)))
  ];
}

pub is_unchanged-found :
    (id remaining : ℕ) (s : Store)
    → is_unchanged id remaining s ≡ true
    → (g : CreditGrant) × (find_row id s.grants.rows ≡ some g) × (g.credits_remaining ≡ remaining)
unfolding is_unchanged
is_unchanged-found id remaining s h = elim (Option-cases (find_row id s.grants.rows)) [
  | inl e ↦ absurd (ground arith)
  | inr (g, e) ↦ (g, e, ground arith)
]

pub write_off-Keeps :
    (reason key : String) (r : ℕ × CreditGrant) → Keeps IsSound (write_off reason key r)
unfolding write_off create_grant_ledger
write_off-Keeps reason key (id, g) = record {
  at = λ s h. elim (Bool-cases (is_unchanged id g.credits_remaining s)) [
    | inl e ↦
        let (cur, found, same) = is_unchanged-found id g.credits_remaining s e in
        let x =
          grant_entry id (emptied g) expiry g.credits_remaining reason (append key (decimal id)) in
        rw e (
          create_ledger-then IsSound x (λ t. pure g.credits_remaining)
            (record s { grants = update s.grants id emptied })
            (move-IsBalanced h id emptied x found (omega arith) refl (omega arith))
            (Keeps-pure g.credits_remaining))
    | inr e ↦ rw e h
  ];
}

pub refund_to_grant-Keeps :
    (event : ℕ) (reason : String) (d : CreditLedger) (id amount left : ℕ)
    → Keeps IsSound (refund_to_grant event reason d id amount left)
unfolding refund_to_grant
refund_to_grant-Keeps event reason d id amount left = record {
  at = λ s h. elim (Option-cases (find_row id s.grants.rows)) [
    | inl e ↦ rw (e, OnSuccess) tt
    | inr (g, found) ↦
        let balance = min (g.credits_remaining + amount) g.credits_granted in
        let paid = balance - g.credits_remaining in
        let x = refund_entry event reason d id g paid balance in
        rw (found, OnSuccess)
          (elim (Bool-cases (paid == 0)) [
            | inl e ↦ rw e h
            | inr e ↦
                let within = h.within id g found in
                rw e (
                  create_ledger-then IsSound x (λ t. pure (left - paid))
                    (record s { grants = update s.grants id (give_back balance) })
                    (move-IsBalanced h id (give_back balance) x found (omega arith) refl
                      (omega arith))
                    (Keeps-pure (left - paid)))
          ])
  ];
}

pub open_grant_with-Keeps :
    (g : CreditGrant) (reason key : String) (use_key : ℕ → Tx (Unit {0}))
    → g.credits_remaining ≡ g.credits_granted
    → ((id : ℕ) → KeepsAccounts (use_key id))
    → Keeps IsSound (open_grant_with g reason key use_key)
unfolding open_grant_with create_grant_ledger
open_grant_with-Keeps g reason key use_key full frame = record {
  at = λ s h.
      let id = s.grants.next_id in
      let s' = record s { grants = insert s.grants g } in
      let x = grant_entry id g grant g.credits_granted reason key in
      unfold ◌>>=◌ in
      bind-OnSuccess (λ t. (t.grants ≡ s'.grants) × (t.ledger ≡ s'.ledger)) IsSound (use_key id)
        (λ u. create_ledger x >>= λ v. pure (id, g)) s' ((frame id).same s')
        (λ u t e.
          create_ledger-then IsSound x (λ v. pure (id, g)) t
            (rw (e.0, e.1) (open-IsBalanced h g x (omega arith) refl (omega arith) refl))
            (Keeps-pure (id, g)));
}
