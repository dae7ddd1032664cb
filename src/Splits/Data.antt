-- ===== src/Splits/Data.antt =====
-- The rows of internal/models/split.go that a group's ledger is read from. Columns that the balances do
-- not read are left out.
use finnri_api.Base.{ℕ, Bool, String, Option, List}
use finnri_api.Base.Int64.{Int64}

pub record SplitFriend : Type 0 where
  pub archived : Bool
  pub linked_user_id : Option ℕ

pub record SplitGroup : Type 0 where
  pub user_id : ℕ
  pub archived : Bool

pub record SplitGroupMember : Type 0 where
  pub user_id : ℕ
  pub group_id : ℕ
  pub friend_id : ℕ

pub record SplitGroupUserMember : Type 0 where
  pub group_id : ℕ
  pub user_id : ℕ
  pub status : String

pub record SplitGroupMemberLink : Type 0 where
  pub group_id : ℕ
  pub slot : String
  pub user_id : ℕ
  pub friend_id : ℕ

pub record SplitBill : Type 0 where
  pub group_id : Option ℕ

pub record SplitParticipant : Type 0 where
  pub user_id : ℕ
  pub bill_id : ℕ
  pub friend_id : ℕ
  pub share_amount : Int64
  pub direction : String

pub record SplitSettlement : Type 0 where
  pub user_id : ℕ
  pub friend_id : ℕ
  pub group_id : Option ℕ
  pub amount : Int64
  pub direction : String
  pub status : String

-- The tables, those under their primary keys that are looked up by them.
pub record SplitStore : Type 0 where
  pub friends : List (ℕ × SplitFriend)
  pub groups : List (ℕ × SplitGroup)
  pub members : List SplitGroupMember
  pub group_users : List SplitGroupUserMember
  pub links : List SplitGroupMemberLink
  pub bills : List (ℕ × SplitBill)
  pub participants : List SplitParticipant
  pub settlements : List SplitSettlement
