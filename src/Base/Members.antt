-- ===== src/Base/Members.antt =====
-- Membership in a list as a proposition with the place kept, and how often a key occurs.
use Prim.Native.Nat.{ℕ, suc, ◌+◌, ◌≤◌, ◌<◌}
use mathlib.Core.Path.{◌≡◌, refl}
use mathlib.Core.List.{List, [], ◌∷◌, ◌++◌}
use mathlib.Core.Bool.{Bool, true, false, ◌&&◌}
use mathlib.Core.Logic.{◌⊎◌, inl, inr}
use native.Mathlib.Omega.{arith}
use finnri_api.Base.Tests.{if◌then◌else◌, ◌==◌, Bool-cases}
use finnri_api.Base.Lists.{keep, All, length}

abbrev pub concat_map {ℓ κ} : {A : Type ℓ} {B : Type κ} → (A → List B) → List A → List B
concat_map f [] = []
concat_map f (x ∷ xs) = f x ++ concat_map f xs

-- A slice with its places.
abbrev pub indexed {ℓ} : {A : Type ℓ} → ℕ → List A → List (ℕ × A)
indexed i [] = []
indexed i (x ∷ xs) = (i, x) ∷ indexed (suc i) xs

module _ {A : Type 0} where
  abbrev pub Has : A → List A → Type 0
  Has x [] = ⊥
  Has x (y ∷ ys) = (x ≡ y) ⊎ Has x ys

  pub All-Has : (P : A → Type 0) (x : A) (xs : List A) → Has x xs → All P xs → P x
  All-Has P x [] k h = elim k [ ]
  All-Has P x (y ∷ ys) (inl e) h = rw e h.0
  All-Has P x (y ∷ ys) (inr k) h = All-Has P x ys k h.1

  pub Has-append_left : (x : A) (xs ys : List A) → Has x xs → Has x (xs ++ ys)
  Has-append_left x [] ys k = elim k [ ]
  Has-append_left x (y ∷ xs) ys (inl e) = inl e
  Has-append_left x (y ∷ xs) ys (inr k) = inr (Has-append_left x xs ys k)

  pub Has-append_right : (x : A) (xs ys : List A) → Has x ys → Has x (xs ++ ys)
  Has-append_right x [] ys k = k
  Has-append_right x (y ∷ xs) ys k = inr (Has-append_right x xs ys k)

  -- A row that a test keeps is in the list, and passes.
  pub Has-keep : (p : A → Bool) (x : A) (xs : List A) → Has x (keep p xs) → Has x xs × (p x ≡ true)
  Has-keep p x [] k = elim k [ ]
  Has-keep p x (y ∷ ys) k = go (p y) refl (Has-keep p x ys) k
    where
      go :
          (b : Bool)
          → p y ≡ b
          → (Has x (keep p ys) → Has x ys × (p x ≡ true))
          → Has x (if b then y ∷ keep p ys else keep p ys)
          → Has x (y ∷ ys) × (p x ≡ true)
      go true e rest (inl same) = (inl same, rw same e)
      go true e rest (inr k) = let r = rest k in (inr r.0, r.1)
      go false e rest k = let r = rest k in (inr r.0, r.1)

  pub All-append : (P : A → Type 0) (xs ys : List A) → All P xs → All P ys → All P (xs ++ ys)
  All-append P [] ys h k = k
  All-append P (x ∷ xs) ys h k = (h.0, All-append P xs ys h.1 k)

  -- How many elements have a key.
  abbrev pub times : (A → ℕ) → ℕ → List A → ℕ
  times key i [] = 0
  times key i (x ∷ xs) = let n = times key i xs in if key x == i then suc n else n

module _ {A B : Type 0} where
  pub Has-concat_map :
      (f : A → List B) (x : A) (y : B) (xs : List A)
      → Has x xs
      → Has y (f x)
      → Has y (concat_map f xs)
  Has-concat_map f x y [] k h = elim k [ ]
  Has-concat_map f x y (z ∷ xs) (inl e) h = Has-append_left y (f z) (concat_map f xs) (rw (← e) h)
  Has-concat_map f x y (z ∷ xs) (inr k) h =
      Has-append_right y (f z) (concat_map f xs) (Has-concat_map f x y xs k h)

  pub All-concat_map :
      (P : B → Type 0) (f : A → List B) (xs : List A)
      → ((x : A) → Has x xs → All P (f x))
      → All P (concat_map f xs)
  All-concat_map P f [] h = tt
  All-concat_map P f (x ∷ xs) h =
      All-append P (f x) _ (h x (inl refl)) (All-concat_map P f xs λ z k. h z (inr k))

module _ {A : Type 0} where
  -- A test on the places keeps all the rows at a place, or none.
  pub times-keep :
      (p : ℕ → Bool) (i : ℕ) (rows : List (ℕ × A))
      → times (λ r. r.0) i (keep (λ r. p r.0) rows) ≡ (if p i then times (λ r. r.0) i rows else 0)
  times-keep p i [] = elim (Bool-cases (p i)) [ inl e ↦ rw e refl | inr e ↦ rw e refl ]
  times-keep p i (r ∷ rows) = elim (Bool-cases (p r.0)) [
    | inl e ↦ rw e (ground (arith, times-keep p i rows))
    | inr e ↦ rw e (ground (arith, times-keep p i rows))
  ]

  -- A further test keeps no more.
  pub times-keep_le :
      (p : ℕ → Bool) (q : ℕ × A → Bool) (i : ℕ) (rows : List (ℕ × A))
      → times (λ r. r.0) i (keep (λ r. p r.0 && q r) rows)
        ≤ (if p i then times (λ r. r.0) i rows else 0)
  times-keep_le p q i [] = omega arith
  times-keep_le p q i (r ∷ rows) = elim (Bool-cases (p r.0)) [
    | inl e ↦ rw e (elim (Bool-cases (q r)) [
      | inl f ↦ rw f (ground (arith, times-keep_le p q i rows))
      | inr f ↦ rw f (ground (arith, times-keep_le p q i rows))
    ])
    | inr e ↦ rw e (ground (arith, times-keep_le p q i rows))
  ]

  pub times-indexed_below : (k i : ℕ) (xs : List A) → i < k → times (λ r. r.0) i (indexed k xs) ≡ 0
  times-indexed_below k i [] h = refl
  times-indexed_below k i (x ∷ xs) h =
      ground (arith, times-indexed_below (suc k) i xs (omega arith))

  pub times-indexed :
      (k i : ℕ) (xs : List A) → k ≤ i → i < k + length xs → times (λ r. r.0) i (indexed k xs) ≡ 1
  times-indexed k i [] h b = absurd (omega arith)
  times-indexed k i (x ∷ xs) h b = elim (Bool-cases (k == i)) [
    | inl e ↦ rw e (ground (arith, times-indexed_below (suc k) i xs (ground arith)))
    | inr e ↦ rw e (times-indexed (suc k) i xs (ground arith) (omega arith))
  ]

  pub times-indexed_le : (k i : ℕ) (xs : List A) → times (λ r. r.0) i (indexed k xs) ≤ 1
  times-indexed_le k i [] = omega arith
  times-indexed_le k i (x ∷ xs) = elim (Bool-cases (k == i)) [
    | inl e ↦ rw e (omega (arith, times-indexed_below (suc k) i xs (ground arith)))
    | inr e ↦ rw e (times-indexed_le (suc k) i xs)
  ]
