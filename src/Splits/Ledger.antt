-- ===== src/Splits/Ledger.antt =====
-- `buildSplitGroupBalances` of internal/http/splits.go: what every member of a group owes, as one viewer
-- sees it, from the bills and settlements of all its members.
pub mod Totals
pub mod Opposite
use finnri_api.Base.{
  ℕ, ◌==◌, Bool, true, false, not, ◌&&◌, ◌||◌, String, str_eq, Option, none, some, List, [], ◌∷◌,
  map, keep, any_of, each, if◌then◌else◌,
}
use finnri_api.Base.Int64.{Int64, add64, neg64}
use finnri_api.Base.Members.{concat_map}
use finnri_api.Table.{find_row}
use finnri_api.Splits.Data.{SplitBill, SplitParticipant, SplitSettlement, SplitStore}
use finnri_api.Splits.Frame.{Frames, has_id, restate_foreign_split_row, load_split_group_frames}

unfoldable pub flip_split_direction : String → String
flip_split_direction direction =
    if str_eq direction "friend_owes_user"
    then "user_owes_friend"
    else if str_eq direction "user_owes_friend"
    then "friend_owes_user"
    else ""

unfoldable pub flip_settlement_direction : String → String
flip_settlement_direction direction =
    if str_eq direction "friend_paid_user"
    then "user_paid_friend"
    else if str_eq direction "user_paid_friend"
    then "friend_paid_user"
    else ""

pub record ForeignRow : Type 0 where
  pub user_id : ℕ
  pub friend_id : ℕ
  pub amount : Int64
  pub direction : String
  pub group_id : ℕ

pub record SplitLedgerAdjustment : Type 0 where
  pub friend_id : ℕ
  pub group_id : ℕ
  pub direction : String
  pub amount : Int64

-- JOIN split_bills; a bill of no group is in none of the ledgers.
unfoldable pub participant_row : List (ℕ × SplitBill) → SplitParticipant → List ForeignRow
unfolding find_row
participant_row bills p = elim (find_row p.bill_id bills) [
  | none ↦ []
  | some bill ↦ elim bill.group_id [
    | none ↦ []
    | some group ↦
        record {
          user_id = p.user_id;
          friend_id = p.friend_id;
          amount = p.share_amount;
          direction = p.direction;
          group_id = group;
        }
        ∷ []
  ]
]

-- WHERE status <> 'denied'
unfoldable pub settlement_row : SplitSettlement → List ForeignRow
settlement_row s = elim s.group_id [
  | none ↦ []
  | some group ↦
      if str_eq s.status "denied"
      then []
      else record {
        user_id = s.user_id;
        friend_id = s.friend_id;
        amount = s.amount;
        direction = s.direction;
        group_id = group;
      }
        ∷ []
]

abbrev pub participant_rows : SplitStore → List ForeignRow
participant_rows db = concat_map (participant_row db.bills) db.participants

abbrev pub settlement_rows : SplitStore → List ForeignRow
settlement_rows db = concat_map settlement_row db.settlements

abbrev pub is_member_of : SplitStore → ℕ → ℕ → Bool
is_member_of db user group =
    any_of (λ m. (m.group_id == group) && ((m.user_id == user) && str_eq m.status "active"))
      db.group_users

unfoldable pub accessible_active_split_group_ids : SplitStore → ℕ → List ℕ
accessible_active_split_group_ids db user =
    map (λ r. r.0)
      (keep (λ r. not r.1.archived && ((r.1.user_id == user) || is_member_of db user r.0))
        db.groups)

-- A line of another member, in the viewer's terms.
unfoldable pub translate_row :
    Frames → ℕ → (String → String) → ForeignRow → List SplitLedgerAdjustment
unfolding restate_foreign_split_row
translate_row frames viewer flip row = elim (frames row.group_id) [
  | none ↦ []
  | some frame ↦ elim (restate_foreign_split_row frame viewer row.user_id row.friend_id) [
    | none ↦ []
    | some counterpart ↦
        if str_eq (flip row.direction) ""
        then []
        else record {
          friend_id = counterpart;
          group_id = row.group_id;
          direction = flip row.direction;
          amount = row.amount;
        }
          ∷ []
  ]
]

abbrev pub foreign_rows : List ℕ → ℕ → List ForeignRow → List ForeignRow
foreign_rows ids viewer = keep (λ r. has_id ids r.group_id && not (r.user_id == viewer))

-- Without a group both lists are empty, as the early return has it.
unfoldable pub fold_foreign_split_ledger :
    SplitStore → ℕ → List SplitLedgerAdjustment × List SplitLedgerAdjustment
unfolding accessible_active_split_group_ids load_split_group_frames
fold_foreign_split_ledger db viewer =
    let ids = accessible_active_split_group_ids db viewer in
    let frames = load_split_group_frames db ids in
    (
      concat_map (translate_row frames viewer flip_split_direction)
          (foreign_rows ids viewer (participant_rows db)),
      concat_map (translate_row frames viewer flip_settlement_direction)
          (foreign_rows ids viewer (settlement_rows db)),
    )

-- JOIN split_groups ... WHERE archived = false
abbrev pub is_active_group : SplitStore → ℕ → Bool
is_active_group db group = any_of (λ r. (r.0 == group) && not r.1.archived) db.groups

abbrev pub own_row : SplitStore → ℕ → ForeignRow → List SplitLedgerAdjustment
own_row db viewer r =
    if (r.user_id == viewer) && is_active_group db r.group_id
    then record {
      friend_id = r.friend_id;
      group_id = r.group_id;
      direction = r.direction;
      amount = r.amount;
    }
      ∷ []
    else []

-- group -> friend -> net; none where the map has no key
abbrev pub Balances : Type 0
Balances = ℕ → ℕ → Option Int64

abbrev pub amount_at : Option Int64 → Int64
amount_at none = 0
amount_at (some amount) = amount

unfoldable pub add : ℕ → ℕ → Int64 → Balances → Balances
add group friend amount balances = if (group == 0) || (friend == 0) then balances else λ g f.
    if (g == group) && (f == friend)
    then some (add64 (amount_at (balances g f)) amount)
    else balances g f

-- What a line adds, none for a direction that is neither.
unfoldable pub share_effect : String → Int64 → Option Int64
share_effect direction amount =
    if str_eq direction "friend_owes_user"
    then some amount
    else if str_eq direction "user_owes_friend"
    then some (neg64 amount)
    else none

unfoldable pub settlement_effect : String → Int64 → Option Int64
settlement_effect direction amount =
    if str_eq direction "friend_paid_user"
    then some (neg64 amount)
    else if str_eq direction "user_paid_friend"
    then some amount
    else none

unfoldable pub post : (String → Int64 → Option Int64) → SplitLedgerAdjustment → Balances → Balances
unfolding add
post effect line balances = elim (effect line.direction line.amount) [
  | none ↦ balances
  | some amount ↦ add line.group_id line.friend_id amount balances
]

unfoldable pub build_split_group_balances : SplitStore → ℕ → Balances
unfolding fold_foreign_split_ledger post share_effect settlement_effect
build_split_group_balances db viewer =
    let foreign = fold_foreign_split_ledger db viewer in
    let own_shares = concat_map (own_row db viewer) (participant_rows db) in
    let own_settlements = concat_map (own_row db viewer) (settlement_rows db) in
    each (post settlement_effect) foreign.1 (
      each (post share_effect) foreign.0 (
        each (post settlement_effect) own_settlements
          (each (post share_effect) own_shares (λ g f. none))))
