-- ===== src/Splits/Frame/Agree.antt =====
-- A group's frame does not depend on what other groups are loaded with it.
use finnri_api.Base.{
  ℕ, ◌==◌, ◌≡◌, refl, Bool, true, false, ◌&&◌, List, [], ◌∷◌, each, Bool-cases, inl, inr, ==_iff,
}
use finnri_api.Splits.Data.{SplitStore, SplitGroup}
use finnri_api.Splits.Frame.{
  SplitGroupFrame, Frames, has_id, add_group, change, add_member, add_link, load_split_group_frames,
}

module _ {A : Type 0} where
  -- Two loops that act alike at a key leave the same there.
  each-agree :
      (f f' : A → Frames → Frames) (k : ℕ)
      → ((x : A) (a b : Frames) → a k ≡ b k → f x a k ≡ f' x b k)
      → (xs : List A) (a b : Frames) → a k ≡ b k
      → each f xs a k ≡ each f' xs b k
  each-agree f f' k alike [] a b h = h
  each-agree f f' k alike (x ∷ xs) a b h =
      each-agree f f' k alike xs (f x a) (f' x b) (alike x a b h)

change-agree :
    (k group : ℕ) (f : SplitGroupFrame → SplitGroupFrame) (a b : Frames)
    → a k ≡ b k
    → change group f a k ≡ change group f b k
change-agree k group f a b h = rw h refl

&&-false : (b : Bool) → (b && false) ≡ false
&&-false true = refl
&&-false false = refl

add_group-agree :
    (ids ids' : List ℕ) (k : ℕ)
    → has_id ids k ≡ true
    → has_id ids' k ≡ true
    → (row : ℕ × SplitGroup) (a b : Frames) → a k ≡ b k
    → add_group ids row a k ≡ add_group ids' row b k
add_group-agree ids ids' k h h' (id, group) a b same = elim (Bool-cases (k == id)) [
  | inl e ↦ let at : k ≡ id = (==_iff k id).0 e in rw (e, ← at, h, h') refl
  | inr e ↦ rw (e, same, &&-false (has_id ids id), &&-false (has_id ids' id)) refl
]

pub load_split_group_frames-agree :
    (db : SplitStore) (ids ids' : List ℕ) (k : ℕ)
    → has_id ids k ≡ true
    → has_id ids' k ≡ true
    → load_split_group_frames db ids k ≡ load_split_group_frames db ids' k
unfolding load_split_group_frames add_member add_link
load_split_group_frames-agree db ids ids' k h h' =
    each-agree add_link add_link k (λ l a b e. change-agree k l.group_id _ a b e) db.links _ _
      (each-agree (add_member db.friends) (add_member db.friends) k
        (λ m a b e. change-agree k m.group_id _ a b e) db.members _ _
        (each-agree (add_group ids) (add_group ids') k (add_group-agree ids ids' k h h') db.groups _
          _ refl))
