-- ===== src/Splits/Frame.antt =====
-- `splitGroupFrame` of internal/http/splits.go: who is meant by a friend row in a shared group. A map is
-- a function, with Go's zero value for a key that is missing; the names and the order of the roster are
-- left out.
pub mod Agree
use finnri_api.Base.{
  ℕ, ◌==◌, Bool, true, false, not, ◌&&◌, ◌||◌, String, str_eq, decimal, Option, none, some, List,
  [], ◌∷◌, any_of, each, if◌then◌else◌,
}
use mathlib.Core.Option as Option
use finnri_api.Table.{find_row}
use finnri_api.Splits.Data.{
  SplitFriend, SplitGroup, SplitGroupMember, SplitGroupMemberLink, SplitStore,
}

pub record SplitGroupFrame : Type 0 where
  pub owner_id : ℕ
  pub slot_of_user : ℕ → Option String
  pub owner_slot_friend : String → ℕ
  pub link_slot_friend : String → ℕ → ℕ

abbrev pub owner_slot : String
owner_slot = "owner"

unfoldable pub split_group_slot_for_friend : ℕ → String
unfolding decimal
split_group_slot_for_friend friend = decimal friend

unfoldable pub friend_for : SplitGroupFrame → String → ℕ → ℕ
friend_for frame slot user =
    if user == frame.owner_id
    then frame.owner_slot_friend slot
    else frame.link_slot_friend slot user

-- The viewer's row for the author of a line that is about the viewer.
unfoldable pub restate_foreign_split_row : SplitGroupFrame → ℕ → ℕ → ℕ → Option ℕ
unfolding friend_for
restate_foreign_split_row frame viewer author friend = elim (frame.slot_of_user viewer) [
  | none ↦ none
  | some viewer_slot ↦ elim (frame.slot_of_user author) [
    | none ↦ none
    | some author_slot ↦
        if not (friend_for frame viewer_slot author == friend)
        then none
        else if friend_for frame author_slot viewer == 0
        then none
        else some (friend_for frame author_slot viewer)
  ]
]

abbrev pub Frames : Type 0
Frames = ℕ → Option SplitGroupFrame

abbrev pub has_id : List ℕ → ℕ → Bool
has_id ids id = any_of (λ i. i == id) ids

abbrev pub new_frame : SplitGroup → SplitGroupFrame
new_frame group = record {
  owner_id = group.user_id;
  slot_of_user = λ user. if user == group.user_id then some owner_slot else none;
  owner_slot_friend = λ slot. 0;
  link_slot_friend = λ slot user. 0;
}

-- WHERE id IN ids
abbrev pub add_group : List ℕ → ℕ × SplitGroup → Frames → Frames
add_group ids (id, group) frames =
    λ k. if has_id ids id && (k == id) then some (new_frame group) else frames k

-- A change to the frame of a group, if it is one of those loaded.
abbrev pub change : ℕ → (SplitGroupFrame → SplitGroupFrame) → Frames → Frames
change group f frames = λ k. if k == group then Option.map f (frames k) else frames k

abbrev pub is_archived : Option SplitFriend → Bool
is_archived none = false
is_archived (some friend) = friend.archived

abbrev pub account_of : Option SplitFriend → Option ℕ
account_of none = none
account_of (some friend) = friend.linked_user_id

abbrev pub set_slot : Option ℕ → String → (ℕ → Option String) → ℕ → Option String
set_slot none slot slots user = slots user
set_slot (some account) slot slots user = if user == account then some slot else slots user

-- Only the owner's rows are the roster, without archived friends.
abbrev pub enrol : Option SplitFriend → SplitGroupMember → SplitGroupFrame → SplitGroupFrame
enrol friend m frame =
    let slot = split_group_slot_for_friend m.friend_id in
    if not (m.user_id == frame.owner_id) || is_archived friend then frame else record frame {
      owner_slot_friend = λ s. if str_eq s slot then m.friend_id else frame.owner_slot_friend s;
      slot_of_user = set_slot (account_of friend) slot frame.slot_of_user;
    }

unfoldable pub add_member : List (ℕ × SplitFriend) → SplitGroupMember → Frames → Frames
unfolding split_group_slot_for_friend find_row
add_member friends m = change m.group_id (enrol (find_row m.friend_id friends) m)

abbrev pub link_up : SplitGroupMemberLink → SplitGroupFrame → SplitGroupFrame
link_up l frame = record frame {
  link_slot_friend = λ slot user.
      if str_eq slot l.slot && (user == l.user_id)
      then l.friend_id
      else frame.link_slot_friend slot user;
}

unfoldable pub add_link : SplitGroupMemberLink → Frames → Frames
add_link l = change l.group_id (link_up l)

-- A member or a link of a group that is not asked for finds no frame, as the queries skip it.
unfoldable pub load_split_group_frames : SplitStore → List ℕ → Frames
unfolding add_member add_link
load_split_group_frames db ids =
    each add_link db.links
      (each (add_member db.friends) db.members (each (add_group ids) db.groups (λ k. none)))
