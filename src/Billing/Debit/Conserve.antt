-- ===== src/Billing/Debit/Conserve.antt =====
-- A debit takes what was asked for out of the subject's balance, no more and no less.
use Prim.Native.Nat.{Ordering}
use finnri_api.Base.{
  ℕ, ◌+◌, ◌-◌, ◌≤◌, min, leb, ◌==◌, ==_iff, ◌≡◌, refl, sym, ◌∙◌, Bool, true, ◌&&◌, Bool-cases, inl,
  inr, String, Option, some, List, [], ◌∷◌, All, All-map, All-keep_of, arith,
}
use mathlib.Core.Option.{some-injective}
use finnri_api.Table.{find_row, select, update, insert}
use finnri_api.Table.Laws.{IsKeyed, Held, IsKeyed-Held, find_row-update_row_cases}
use finnri_api.Table.Sums.{sum_rows-update_row}
use finnri_api.Billing.Data.{CreditGrant, CreditLedger, CreditSubject}
use finnri_api.Billing.Tx.{Store, pure, fail, gets, ◌>>=◌}
use finnri_api.Billing.Allowance.{
  in_scope, unexpired, is_spendable, spendable_credits, available_credits,
}
use finnri_api.Billing.Balance.Rules.{OnSuccess, OnSuccess-map, bind-OnSuccess}
use finnri_api.Billing.Balance.Moves.{create_ledger-OnSuccess, withdraw-cases}
use finnri_api.Billing.Debit.{
  debit_grant, debit_entry, debit_grants, debit_available_grants, order_grants, place,
  compare_grants, take_from,
}

-- What makes a grant spendable, whatever is left of it.
pub is_open : CreditSubject → ℕ → CreditGrant → Bool
is_open c now g =
    leb g.valid_from now
    && unexpired g.expires_at now
    && in_scope c g.user_id g.guest_device_id_hash

spendable_credits_of_open :
    (c : CreditSubject) (now : ℕ) (g : CreditGrant)
    → is_open c now g ≡ true
    → spendable_credits c now g ≡ g.credits_remaining
unfolding is_open spendable_credits is_spendable
spendable_credits_of_open c now g h = ground arith

is_open_of_spendable :
    (c : CreditSubject) (now : ℕ) (g : CreditGrant)
    → is_spendable c now g ≡ true
    → is_open c now g ≡ true
unfolding is_open is_spendable
is_open_of_spendable c now g h = ground arith

-- Whatever row stands under the key is open to the subject.
pub IsOpen : CreditSubject → ℕ → Store → ℕ × CreditGrant → Type 0
IsOpen c now s r = (g : CreditGrant) → find_row r.0 s.grants.rows ≡ some g → is_open c now g ≡ true

take_from-is_open :
    (c : CreditSubject) (now take : ℕ) (g : CreditGrant)
    → is_open c now (take_from take g) ≡ is_open c now g
unfolding is_open
take_from-is_open c now take g = refl

module _ (c : CreditSubject) (now : ℕ) where
  -- The store of a withdrawal.
  abbrev withdrawn : ℕ → ℕ → Store → Store
  withdrawn id take s = record s { grants = update s.grants id (take_from take) }

  withdrawn-IsOpen :
      (id take : ℕ) (s : Store) (r : ℕ × CreditGrant)
      → IsOpen c now s r
      → IsOpen c now (withdrawn id take s) r
  unfolding IsOpen update
  withdrawn-IsOpen id take s (j, x) h g found =
      elim (find_row-update_row_cases id j (take_from take) s.grants.rows found) [
        | inl (old, p, q) ↦ rw q (take_from-is_open c now take old ∙ h old p)
        | inr p ↦ h g p
      ]

  withdraw-available :
      (id take : ℕ) (s : Store) {g : CreditGrant}
      → find_row id s.grants.rows ≡ some g
      → is_open c now g ≡ true
      → take ≤ g.credits_remaining
      → available_credits (withdrawn id take s) c now + take ≡ available_credits s c now
  unfolding available_credits update
  withdraw-available id take s {g} found open_ enough = omega (
    arith,
    sum_rows-update_row (spendable_credits c now) id (take_from take) s.grants.rows g found,
    spendable_credits_of_open c now g open_,
    spendable_credits_of_open c now (take_from take g) (take_from-is_open c now take g ∙ open_),
  )

  -- What taking `take` out of the balance of `s` leaves, with the grants open that were open and the
  -- other tables of a reservation as they were.
  pub record Took (take : ℕ) (s t : Store) : Type 0 where
    pub balance : available_credits t c now + take ≡ available_credits s c now
    pub still_open : (r : ℕ × CreditGrant) → IsOpen c now s r → IsOpen c now t r
    pub same_daily : t.daily ≡ s.daily
    pub same_events : t.events ≡ s.events

  Took-none : (s : Store) → Took 0 s s
  Took-none s = record {
    balance = omega arith;
    still_open = λ r h. h;
    same_daily = refl;
    same_events = refl;
  }

  Took-rest :
      (take left : ℕ) {s t u : Store}
      → take ≤ left
      → Took take s t
      → Took (left - take) t u
      → Took left s u
  Took-rest take left le p q = record {
    balance = omega (arith, p.balance, q.balance);
    still_open = λ r h. q.still_open r (p.still_open r h);
    same_daily = q.same_daily ∙ p.same_daily;
    same_events = q.same_events ∙ p.same_events;
  }

  Took-withdraw :
      (id take : ℕ) (s : Store) {g : CreditGrant}
      → find_row id s.grants.rows ≡ some g
      → is_open c now g ≡ true
      → take ≤ g.credits_remaining
      → Took take s (withdrawn id take s)
  Took-withdraw id take s found open_ enough = record {
    balance = withdraw-available id take s found open_ enough;
    still_open = withdrawn-IsOpen id take s;
    same_daily = refl;
    same_events = refl;
  }

  -- The ledger has no part in it.
  Took-ledger :
      (take : ℕ) {s t : Store} (x : CreditLedger)
      → Took take s t
      → Took take s (record t { ledger = insert t.ledger x })
  unfolding available_credits IsOpen
  Took-ledger take x p = record {
    balance = p.balance;
    still_open = p.still_open;
    same_daily = p.same_daily;
    same_events = p.same_events;
  }

  debit_grant-Took :
      (reason key : String) (event : Option ℕ) (r : ℕ × CreditGrant) (take : ℕ) (s : Store)
      → IsOpen c now s r
      → OnSuccess (Took take s) (debit_grant reason key event r take s)
  unfolding debit_grant ◌>>=◌ IsOpen
  debit_grant-Took reason key event (id, g) take s h = elim (withdraw-cases id take s) [
    | inl e ↦ rw (e, OnSuccess) tt
    | inr (cur, found, enough, e) ↦
        let x = debit_entry reason key event id g take in
        rw (e, OnSuccess)
          (create_ledger-OnSuccess (Took take s) x (withdrawn id take s)
            (Took-ledger take x (Took-withdraw id take s found (h cur found) enough)))
  ]

  debit_grants-Took :
      (reason key : String) (event : Option ℕ) (rows : List (ℕ × CreditGrant)) (left : ℕ)
      (s : Store)
      → All (IsOpen c now s) rows
      → OnSuccess (Took left s) (debit_grants reason key event rows left s)
  unfolding debit_grants
  debit_grants-Took reason key event [] left s h = elim (Bool-cases (left == 0)) [
    | inl e ↦ rw ((==_iff left 0).0 e) (unfold pure in Took-none s)
    | inr e ↦ rw e (unfold fail in tt)
  ]
  debit_grants-Took reason key event (r ∷ rows) left s h = elim (Bool-cases (left == 0)) [
    | inl e ↦ rw ((==_iff left 0).0 e) (unfold pure in Took-none s)
    | inr e ↦
        let take = min r.1.credits_remaining left in
        rw e (
          bind-OnSuccess (Took take s) (Took left s) (debit_grant reason key event r take)
            (λ u. debit_grants reason key event rows (left - take)) s
            (debit_grant-Took reason key event r take s h.0)
            (λ u t p.
              OnSuccess-map (Took (left - take) t) (Took left s)
                (λ v. Took-rest take left (omega arith) p)
                (debit_grants reason key event rows (left - take) t)
                (debit_grants-Took reason key event rows (left - take) t
                  (All-map (IsOpen c now s) (IsOpen c now t) p.still_open rows h.1))))
  ]

  place-All :
      (P : ℕ × CreditGrant → Type 0) (r : ℕ × CreditGrant) (rows : List (ℕ × CreditGrant))
      → P r
      → All P rows
      → All P (place r rows)
  unfolding place
  place-All P r [] p h = (p, tt)
  place-All P r (q ∷ rows) p h =
      elim (compare_grants r q)
        as (λ o. All P (elim o [ Ordering.gt ↦ q ∷ place r rows | _ ↦ r ∷ q ∷ rows ])) [
          | Ordering.gt ↦ (h.0, place-All P r rows p h.1)
          | Ordering.lt ↦ (p, h)
          | Ordering.eq ↦ (p, h)
        ]

  order_grants-All :
      (P : ℕ × CreditGrant → Type 0) (rows : List (ℕ × CreditGrant))
      → All P rows
      → All P (order_grants rows)
  unfolding order_grants
  order_grants-All P [] h = tt
  order_grants-All P (r ∷ rows) h =
      place-All P r (order_grants rows) h.0 (order_grants-All P rows h.1)

  select-IsOpen :
      (s : Store)
      → IsKeyed s.grants.rows
      → All (IsOpen c now s) (select (is_spendable c now) s.grants.rows)
  unfolding select IsOpen
  select-IsOpen s h =
      All-keep_of (Held s.grants.rows) (IsOpen c now s) (λ r. is_spendable c now r.1)
        (λ r p found g e.
          rw (some-injective _ _ (sym e ∙ found)) (is_open_of_spendable c now r.1 p))
        s.grants.rows (IsKeyed-Held s.grants.rows h)

  -- A debit that succeeds lowers the subject's spendable balance by exactly the credits asked for; a grant
  -- that was open to the subject stays so, and the day's counters and the usage events stay as they
  -- are. No two grants may share a primary key.
  pub debit_available_grants-Took :
      (credits : ℕ) (reason key : String) (event : Option ℕ) (s : Store)
      → IsKeyed s.grants.rows
      → OnSuccess (Took credits s) (debit_available_grants c credits reason key event now s)
  unfolding debit_available_grants ◌>>=◌ gets
  debit_available_grants-Took credits reason key event s h = elim (Bool-cases (credits == 0)) [
    | inl e ↦ rw ((==_iff credits 0).0 e) (unfold pure in Took-none s)
    | inr e ↦ rw e (
        debit_grants-Took reason key event
          (order_grants (select (is_spendable c now) s.grants.rows)) credits s
          (order_grants-All (IsOpen c now s) _ (select-IsOpen s h)))
  ]
