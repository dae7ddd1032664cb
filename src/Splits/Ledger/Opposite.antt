-- ===== src/Splits/Ledger/Opposite.antt =====
-- What two members of a group owe each other, as each of them sees it.
use finnri_api.Base.{
  ℕ, ◌+◌, ◌%◌, ◌==◌, ◌≡◌, ◌<◌, ◌∙◌, refl, sym, subst, arith, true, false, not, ◌&&◌, ◌||◌, String,
  str_eq, Option, none, some, List, [], ◌∷◌, map, keep, any_of, All, if◌then◌else◌, Bool-cases,
  Option-cases, ◌⊎◌, inl, inr, ==_iff,
}
use finnri_api.Base.Int64.{Int64, two_64, add64}
use finnri_api.Base.Members.{concat_map}
use finnri_api.Splits.Data.{SplitStore, SplitGroup}
use finnri_api.Splits.Frame.{
  SplitGroupFrame, Frames, has_id, friend_for, restate_foreign_split_row, load_split_group_frames,
}
use finnri_api.Splits.Frame.Agree.{load_split_group_frames-agree}
use finnri_api.Splits.Ledger.{
  ForeignRow, SplitLedgerAdjustment, amount_at, own_row, translate_row, foreign_rows,
  is_active_group, is_member_of, accessible_active_split_group_ids, flip_split_direction,
  flip_settlement_direction, share_effect, settlement_effect, participant_rows, settlement_rows,
  build_split_group_balances, fold_foreign_split_ledger,
}
use finnri_api.Splits.Ledger.Totals.{total, total-append, build_split_group_balances-total}

-- A viewer has a row of their own for another member, which stands for nobody else.
pub record Knows (frame : SplitGroupFrame) (viewer other : ℕ) : Type 0 where
  pub slot : String
  pub known : frame.slot_of_user other ≡ some slot
  pub named : (friend_for frame slot viewer == 0) ≡ false
  pub alone :
      (account : ℕ) (s : String)
      → frame.slot_of_user account ≡ some s
      → friend_for frame s viewer ≡ friend_for frame slot viewer
      → account ≡ other

-- What a direction adds, and what its reverse adds, cancel.
abbrev IsReversed : (String → String) → (String → Int64 → Option Int64) → Type 0
IsReversed flip effect =
    (direction : String) (amount : Int64)
    → amount < two_64
    → (amount_at (effect direction amount)
          + (if str_eq (flip direction) "" then 0 else amount_at (effect (flip direction) amount)))
        % two_64
      ≡ 0

shares-IsReversed : IsReversed flip_split_direction share_effect
unfolding flip_split_direction share_effect
shares-IsReversed direction amount h = elim (Bool-cases (str_eq direction "friend_owes_user")) [
  | inl e ↦ rw e (omega (arith, h))
  | inr e ↦ elim (Bool-cases (str_eq direction "user_owes_friend")) [
    | inl e' ↦ rw (e, e') (omega (arith, h))
    | inr e' ↦ rw (e, e') refl
  ]
]

settlements-IsReversed : IsReversed flip_settlement_direction settlement_effect
unfolding flip_settlement_direction settlement_effect
settlements-IsReversed direction amount h =
    elim (Bool-cases (str_eq direction "friend_paid_user")) [
      | inl e ↦ rw e (omega (arith, h))
      | inr e ↦ elim (Bool-cases (str_eq direction "user_paid_friend")) [
        | inl e' ↦ rw (e, e') (omega (arith, h))
        | inr e' ↦ rw (e, e') refl
      ]
    ]

active_of :
    (db : SplitStore) (user group : ℕ) (rows : List (ℕ × SplitGroup))
    → has_id
        (map
          (λ r. r.0)
          (keep
            (λ r. not r.1.archived && ((r.1.user_id == user) || is_member_of db user r.0))
            rows))
        group
      ≡ true
    → any_of (λ r. (r.0 == group) && not r.1.archived) rows ≡ true
active_of db user group [] h = h
active_of db user group ((i, g) ∷ rows) h = ground (arith, active_of db user group rows)

module _ (db : SplitStore) (ids : List ℕ) (frames : Frames) (frame : SplitGroupFrame)
    (group u v : ℕ) (flip : String → String) (effect : String → Int64 → Option Int64)
    (k : Knows frame u v) (k' : Knows frame v u) (active : is_active_group db group ≡ true)
    (listed : has_id ids group ≡ true) (framed : frames group ≡ some frame)
    (differ : (u == v) ≡ false) (reversed : IsReversed flip effect) where
  abbrev mine : List SplitLedgerAdjustment → ℕ
  mine = total effect group (friend_for frame k.slot u)

  abbrev theirs : List SplitLedgerAdjustment → ℕ
  theirs = total effect group (friend_for frame k'.slot v)

  abbrev seen : ForeignRow → List SplitLedgerAdjustment
  seen r =
      if has_id ids r.group_id && not (r.user_id == v) then translate_row frames v flip r else []

  abbrev Cancels : ForeignRow → Type 0
  Cancels r = (mine (own_row db u r) + theirs (seen r)) % two_64 ≡ 0

  restated :
      (friend : ℕ)
      → restate_foreign_split_row frame v u friend
        ≡ (if friend_for frame k.slot u == friend then some (friend_for frame k'.slot v) else none)
  unfolding restate_foreign_split_row
  restated friend = ground (arith, k.known, k'.known, k'.named)

  -- A line of another author is not restated under the row for u.
  not_restated :
      (author friend : ℕ)
      → (author == u) ≡ false
      → (restate_foreign_split_row frame v author friend ≡ none)
        ⊎ ((c : ℕ) × (restate_foreign_split_row frame v author friend ≡ some c)
            × ((friend_for frame k'.slot v == c) ≡ false))
  unfolding restate_foreign_split_row
  not_restated author friend other = elim (Option-cases (frame.slot_of_user author)) [
    | inl e ↦ inl (ground (arith, k.known, e))
    | inr (s, e) ↦ elim (Bool-cases (friend_for frame k'.slot v == friend_for frame s v)) [
      | inl same ↦
          let at : friend_for frame k'.slot v ≡ friend_for frame s v = (==_iff _ _).0 same in
          absurd (ground (arith, k'.alone author s e (sym at)))
      | inr away ↦ elim (Bool-cases (friend_for frame k.slot author == friend)) [
        | inl about ↦ elim (Bool-cases (friend_for frame s v == 0)) [
          | inl nameless ↦ inl (ground (arith, k.known, e))
          | inr row ↦ inr (friend_for frame s v, ground (arith, k.known, e), away)
        ]
        | inr about ↦ inl (ground (arith, k.known, e))
      ]
    ]
  ]

  abbrev line : ℕ → ℕ → ℕ → Int64 → String → ForeignRow
  line grp author friend amount direction = record {
    user_id = author;
    friend_id = friend;
    amount = amount;
    direction = direction;
    group_id = grp;
  }

  own_line :
      (friend : ℕ) (amount : Int64) (direction : String)
      → amount < two_64
      → Cancels (line group u friend amount direction)
  unfolding translate_row
  own_line friend amount direction word =
      let cancel = reversed direction amount word in
      rw (active, listed, differ, translate_row, framed, restated friend) (ground arith)

  other_line :
      (author friend : ℕ) (amount : Int64) (direction : String)
      → (author == u) ≡ false
      → Cancels (line group author friend amount direction)
  unfolding translate_row
  other_line author friend amount direction other = elim (not_restated author friend other) [
    | inl e ↦ rw (other, listed, translate_row, framed, e) (ground arith)
    | inr (c, e, away) ↦ rw (other, listed, translate_row, framed, e) (ground arith)
  ]

  far_line : (r : ForeignRow) → (group == r.group_id) ≡ false → Cancels r
  unfolding translate_row restate_foreign_split_row
  far_line r apart = ground arith

  opposite_line : (r : ForeignRow) → r.amount < two_64 → Cancels r
  opposite_line r word = elim (Bool-cases (group == r.group_id)) [
    | inl e ↦
        subst (λ g. Cancels (line g r.user_id r.friend_id r.amount r.direction))
          ((==_iff group r.group_id).0 e)
          (elim (Bool-cases (r.user_id == u)) [
            | inl owned ↦
                subst (λ a. Cancels (line group a r.friend_id r.amount r.direction))
                  (sym ((==_iff r.user_id u).0 owned))
                  (own_line r.friend_id r.amount r.direction word)
            | inr other ↦ other_line r.user_id r.friend_id r.amount r.direction other
          ])
    | inr e ↦ far_line r e
  ]

  theirs-next :
      (r : ForeignRow) (rows : List ForeignRow)
      → theirs (concat_map (translate_row frames v flip) (foreign_rows ids v (r ∷ rows)))
        ≡ theirs (seen r)
          + theirs (concat_map (translate_row frames v flip) (foreign_rows ids v rows))
  theirs-next r rows = elim (Bool-cases (has_id ids r.group_id && not (r.user_id == v))) [
    | inl e ↦ rw e (total-append effect group _ (translate_row frames v flip r) _)
    | inr e ↦ rw e (omega arith)
  ]

  opposite_lines :
      (rows : List ForeignRow)
      → All (λ r. r.amount < two_64) rows
      → (mine (concat_map (own_row db u) rows)
            + theirs (concat_map (translate_row frames v flip) (foreign_rows ids v rows)))
          % two_64
        ≡ 0
  opposite_lines [] h = omega arith
  opposite_lines (r ∷ rows) h =
      let rest = opposite_lines rows h.1 in
      let one = opposite_line r h.0 in
      omega (
        arith,
        theirs-next r rows,
        total-append effect group (friend_for frame k.slot u) (own_row db u r)
            (concat_map (own_row db u) rows),
      )

-- The ledger's amounts are words of an int64.
abbrev pub AreWords : SplitStore → Type 0
AreWords db =
    All (λ r. r.amount < two_64) (participant_rows db)
    × All (λ r. r.amount < two_64) (settlement_rows db)

-- When two different members of an active group, whose id is not 0, each have a row of their own
-- for the other that stands for nobody else, and the amounts are words of an int64, then the
-- balance that one of them sees with the other in the group and the balance that the other sees
-- with the first sum to zero.
pub build_split_group_balances-opposite :
    (db : SplitStore) (frame : SplitGroupFrame) (group u v : ℕ)
    → (group == 0) ≡ false
    → (u == v) ≡ false
    → has_id (accessible_active_split_group_ids db u) group ≡ true
    → has_id (accessible_active_split_group_ids db v) group ≡ true
    → load_split_group_frames db (group ∷ []) group ≡ some frame
    → (k : Knows frame u v) (k' : Knows frame v u) → AreWords db
    → add64
        (amount_at (build_split_group_balances db u group (friend_for frame k.slot u)))
        (amount_at (build_split_group_balances db v group (friend_for frame k'.slot v)))
      ≡ 0
unfolding accessible_active_split_group_ids fold_foreign_split_ledger
build_split_group_balances-opposite db frame group u v g differ mu mv framed k k' words =
    let active : is_active_group db group ≡ true = active_of db u group db.groups mu in
    let differ' : (v == u) ≡ false = ground arith in
    let self : has_id (group ∷ []) group ≡ true = ground arith in
    let ids = accessible_active_split_group_ids db u in
    let ids' = accessible_active_split_group_ids db v in
    let fu : load_split_group_frames db ids group ≡ some frame =
      load_split_group_frames-agree db ids (group ∷ []) group mu self ∙ framed in
    let fv : load_split_group_frames db ids' group ≡ some frame =
      load_split_group_frames-agree db ids' (group ∷ []) group mv self ∙ framed in
    let frames = load_split_group_frames db ids in
    let frames' = load_split_group_frames db ids' in
    omega (
      arith,
      build_split_group_balances-total db u group (friend_for frame k.slot u) g k.named,
      build_split_group_balances-total db v group (friend_for frame k'.slot v) g k'.named,
      opposite_lines db ids' frames' frame group u v flip_split_direction share_effect k k' active
          mv fv differ shares-IsReversed (participant_rows db) words.0,
      opposite_lines db ids' frames' frame group u v flip_settlement_direction settlement_effect k
          k' active mv fv differ settlements-IsReversed (settlement_rows db) words.1,
      opposite_lines db ids frames frame group v u flip_split_direction share_effect k' k active mu
          fu differ' shares-IsReversed (participant_rows db) words.0,
      opposite_lines db ids frames frame group v u flip_settlement_direction settlement_effect k' k
          active mu fu differ' settlements-IsReversed (settlement_rows db) words.1,
    )
