-- ===== src/Scenarios/Groups.antt =====
-- The theorems on shared groups at a trip of two: user 1 owns the group and knows user 2 as friend 11,
-- who knows the owner as friend 21.
use finnri_api.Base.{
  ℕ, ◌==◌, ◌≡◌, refl, sym, subst, arith, true, false, ◌&&◌, Bool-cases, ==_iff, inl, inr, String,
  str_eq, none, some, [], ◌∷◌, decimal, if◌then◌else◌,
}
use mathlib.Core.Option.{some-injective}
use finnri_api.Base.Int64.{add64}
use finnri_api.Table.{find_row}
use finnri_api.Splits.Data.{SplitStore}
use finnri_api.Splits.Frame.{
  SplitGroupFrame, has_id, split_group_slot_for_friend, load_split_group_frames, friend_for,
}
use finnri_api.Splits.Ledger.{
  amount_at, accessible_active_split_group_ids, build_split_group_balances, participant_row,
  settlement_row, translate_row, flip_settlement_direction, flip_split_direction,
}
use finnri_api.Splits.Ledger.Opposite.{Knows, AreWords, build_split_group_balances-opposite}

-- The owner paid 100.00 and is owed half; the member paid 30.00 of a taxi, of which the owner owes
-- 10.00, and has paid 25.00 back.
abbrev trip : SplitStore
trip = record {
  friends =
      (11, record { archived = false; linked_user_id = some 2 })
      ∷ (21, record { archived = false; linked_user_id = some 1 })
      ∷ [];
  groups = (5, record { user_id = 1; archived = false }) ∷ [];
  members = record { user_id = 1; group_id = 5; friend_id = 11 } ∷ [];
  group_users = record { group_id = 5; user_id = 2; status = "active" } ∷ [];
  links = record { group_id = 5; slot = "owner"; user_id = 2; friend_id = 21 } ∷ [];
  bills = (1, record { group_id = some 5 }) ∷ (2, record { group_id = some 5 }) ∷ [];
  participants =
      record {
        user_id = 1;
        bill_id = 1;
        friend_id = 11;
        share_amount = 5000;
        direction = "friend_owes_user";
      }
      ∷ record {
        user_id = 2;
        bill_id = 2;
        friend_id = 21;
        share_amount = 1000;
        direction = "friend_owes_user";
      }
      ∷ [];
  settlements =
      record {
        user_id = 2;
        friend_id = 21;
        group_id = some 5;
        amount = 2500;
        direction = "user_paid_friend";
        status = "pending";
      }
      ∷ [];
}

abbrev trip_frame : SplitGroupFrame
trip_frame = record {
  owner_id = 1;
  slot_of_user = λ user. if user == 2 then some "11" else if user == 1 then some "owner" else none;
  owner_slot_friend = λ slot. if str_eq slot "11" then 11 else 0;
  link_slot_friend = λ slot user. if str_eq slot "owner" && (user == 2) then 21 else 0;
}

framed : load_split_group_frames trip (5 ∷ []) 5 ≡ some trip_frame
unfolding load_split_group_frames split_group_slot_for_friend decimal find_row
framed = refl

owner_sees : build_split_group_balances trip 1 5 11 ≡ some 1500
unfolding build_split_group_balances accessible_active_split_group_ids load_split_group_frames
    split_group_slot_for_friend decimal find_row participant_row settlement_row friend_for
    translate_row flip_settlement_direction flip_split_direction
owner_sees = refl

owner_alone :
    (account : ℕ) (s : String)
    → trip_frame.slot_of_user account ≡ some s
    → friend_for trip_frame s 1 ≡ friend_for trip_frame "11" 1
    → account ≡ 2
unfolding friend_for
owner_alone account s at same = elim (Bool-cases (account == 2)) [
  | inl e ↦ (==_iff account 2).0 e
  | inr e ↦ elim (Bool-cases (account == 1)) [
    | inl e' ↦
        let slot : some "owner" ≡ some s = ground arith in
        let row : 0 ≡ 11 =
          subst (λ t. friend_for trip_frame t 1 ≡ 11) (sym (some-injective _ _ slot)) same in
        absurd (omega (arith, row))
    | inr e' ↦ absurd (ground arith)
  ]
]

member_alone :
    (account : ℕ) (s : String)
    → trip_frame.slot_of_user account ≡ some s
    → friend_for trip_frame s 2 ≡ friend_for trip_frame "owner" 2
    → account ≡ 1
unfolding friend_for
member_alone account s at same = elim (Bool-cases (account == 1)) [
  | inl e ↦ (==_iff account 1).0 e
  | inr e ↦ elim (Bool-cases (account == 2)) [
    | inl e' ↦
        let slot : some "11" ≡ some s = ground arith in
        let row : 0 ≡ 21 =
          subst (λ t. friend_for trip_frame t 2 ≡ 21) (sym (some-injective _ _ slot)) same in
        absurd (omega (arith, row))
    | inr e' ↦ absurd (ground arith)
  ]
]

owner-Knows : Knows trip_frame 1 2
unfolding friend_for
owner-Knows = record { slot = "11"; known = refl; named = refl; alone = owner_alone }

member-Knows : Knows trip_frame 2 1
unfolding friend_for
member-Knows = record { slot = "owner"; known = refl; named = refl; alone = member_alone }

small : AreWords trip
unfolding participant_row settlement_row find_row
small = ((omega arith, (omega arith, tt)), (omega arith, tt))

owner_listed : has_id (accessible_active_split_group_ids trip 1) 5 ≡ true
unfolding accessible_active_split_group_ids
owner_listed = refl

member_listed : has_id (accessible_active_split_group_ids trip 2) 5 ≡ true
unfolding accessible_active_split_group_ids
member_listed = refl

build_split_group_balances-opposite_example :
    add64
      (amount_at (build_split_group_balances trip 1 5 (friend_for trip_frame owner-Knows.slot 1)))
      (amount_at (build_split_group_balances trip 2 5 (friend_for trip_frame member-Knows.slot 2)))
    ≡ 0
build_split_group_balances-opposite_example =
    build_split_group_balances-opposite trip trip_frame 5 1 2 refl refl owner_listed member_listed
      framed owner-Knows member-Knows small
