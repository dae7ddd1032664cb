-- ===== src/Splits/Ledger/Totals.antt =====
-- The balance of a friend is the sum of what the lines about them add.
use finnri_api.Base.{
  ℕ, ◌+◌, ◌%◌, ◌==◌, ◌≡◌, ◌∙◌, arith, false, ◌&&◌, String, Option, none, List, [], ◌∷◌, ◌++◌, each,
  if◌then◌else◌,
}
use finnri_api.Base.Int64.{Int64, two_64}
use finnri_api.Base.Members.{concat_map}
use finnri_api.Splits.Data.{SplitStore}
use finnri_api.Splits.Ledger.{
  SplitLedgerAdjustment, Balances, amount_at, add, post, own_row, participant_rows, settlement_rows,
  fold_foreign_split_ledger, build_split_group_balances, share_effect, settlement_effect,
}

-- What a line adds to a friend's balance in a group.
abbrev pub part : (String → Int64 → Option Int64) → ℕ → ℕ → SplitLedgerAdjustment → ℕ
part effect group friend line =
    if (group == line.group_id) && (friend == line.friend_id)
    then amount_at (effect line.direction line.amount)
    else 0

abbrev pub total : (String → Int64 → Option Int64) → ℕ → ℕ → List SplitLedgerAdjustment → ℕ
total effect group friend [] = 0
total effect group friend (line ∷ lines) =
    part effect group friend line + total effect group friend lines

pub total-append :
    (effect : String → Int64 → Option Int64) (group friend : ℕ) (xs ys : List SplitLedgerAdjustment)
    → total effect group friend (xs ++ ys)
      ≡ total effect group friend xs + total effect group friend ys
total-append effect group friend [] ys = omega arith
total-append effect group friend (x ∷ xs) ys = omega (arith, total-append effect group friend xs ys)

post-part :
    (effect : String → Int64 → Option Int64) (group friend : ℕ) (line : SplitLedgerAdjustment)
    (b : Balances)
    → (group == 0) ≡ false
    → (friend == 0) ≡ false
    → amount_at (post effect line b group friend) % two_64
      ≡ (amount_at (b group friend) + part effect group friend line) % two_64
unfolding post add
post-part effect group friend line b g f = ground arith

pub each-total :
    (effect : String → Int64 → Option Int64) (group friend : ℕ) (lines : List SplitLedgerAdjustment)
    (b : Balances)
    → (group == 0) ≡ false
    → (friend == 0) ≡ false
    → amount_at (each (post effect) lines b group friend) % two_64
      ≡ (amount_at (b group friend) + total effect group friend lines) % two_64
each-total effect group friend [] b g f = omega arith
each-total effect group friend (line ∷ lines) b g f =
    each-total effect group friend lines (post effect line b) g f
    ∙ omega (arith, post-part effect group friend line b g f)

pub build_split_group_balances-total :
    (db : SplitStore) (viewer group friend : ℕ)
    → (group == 0) ≡ false
    → (friend == 0) ≡ false
    → amount_at (build_split_group_balances db viewer group friend) % two_64
      ≡ (total share_effect group friend (concat_map (own_row db viewer) (participant_rows db))
          + total settlement_effect group friend
              (concat_map (own_row db viewer) (settlement_rows db))
          + total share_effect group friend (fold_foreign_split_ledger db viewer).0
          + total settlement_effect group friend (fold_foreign_split_ledger db viewer).1)
        % two_64
unfolding build_split_group_balances
build_split_group_balances-total db viewer group friend g f =
    let foreign = fold_foreign_split_ledger db viewer in
    let b1 : Balances =
      each (post share_effect) (concat_map (own_row db viewer) (participant_rows db))
        (λ g f. none) in
    let b2 : Balances =
      each (post settlement_effect) (concat_map (own_row db viewer) (settlement_rows db)) b1 in
    let b3 : Balances = each (post share_effect) foreign.0 b2 in
    omega (
      arith,
      each-total share_effect group friend (concat_map (own_row db viewer) (participant_rows db))
          (λ g f. none) g f,
      each-total settlement_effect group friend
          (concat_map (own_row db viewer) (settlement_rows db)) b1 g f,
      each-total share_effect group friend foreign.0 b2 g f,
      each-total settlement_effect group friend foreign.1 b3 g f,
    )
