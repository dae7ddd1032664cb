-- ===== src/AiGuard/Fingerprint/Valid.antt =====
-- The check against a description of the ids that it takes.
use Prim.Native.Char.{Char, code}
use Prim.Native.String.{[], ◌∷◌}
use finnri_api.Base.{
  ℕ, ltb, leb, ◌==◌, ◌≡◌, inl, inr, Bool, true, false, not, ◌&&◌, ◌||◌, String, if◌then◌else◌,
  trim_space, arith, Bool-cases, refl,
}
use finnri_api.Money.{byte_length}
use finnri_api.AiGuard.Fingerprint.{
  is_allowed, is_control, scan_runes, scan_all, valid_guest_device_fingerprint,
}

abbrev pub all_allowed : String → Bool
all_allowed [] = true
all_allowed (c ∷ s) = is_allowed c && all_allowed s

-- Some character has another code than the given one.
abbrev pub differs : ℕ → String → Bool
differs n [] = false
differs n (c ∷ s) = not (code c == n) || differs n s

-- A text whose characters are not all its first.
abbrev pub varies : String → Bool
varies [] = false
varies (c ∷ s) = differs (code c) s

allowed_not_control : (c : Char) → is_allowed c ≡ true → is_control c ≡ false
unfolding is_allowed
allowed_not_control c h = ground arith

not_and_or : (b same rest : Bool) → (not (b && same) || rest) ≡ (not b || (not same || rest))
not_and_or true same rest = refl
not_and_or false same rest = refl

-- The two tests in front of the loop's rest leave it exactly at an allowed character.
passes :
    (c : Char) (rest : Bool)
    → (if is_control c then false else if not (is_allowed c) then false else rest)
      ≡ (is_allowed c && rest)
passes c rest = elim (Bool-cases (is_allowed c)) [
  | inl good ↦ rw (allowed_not_control c good, good) refl
  | inr bad ↦ rw bad (elim (Bool-cases (is_control c)) [ inl e ↦ rw e refl | inr e ↦ rw e refl ])
]

and_assoc : (a b c : Bool) → (a && (b && c)) ≡ ((a && b) && c)
and_assoc true b c = refl
and_assoc false b c = refl

scan_runes_all :
    (first : Char) (all_same : Bool) (s : String)
    → scan_runes first all_same s ≡ (all_allowed s && (not all_same || differs (code first) s))
unfolding scan_runes
scan_runes_all first true [] = refl
scan_runes_all first false [] = refl
scan_runes_all first all_same (c ∷ s) =
    rw
      (
        passes c (scan_runes first (all_same && code c == code first) s),
        scan_runes_all first (all_same && code c == code first) s,
        not_and_or all_same (code c == code first) (differs (code first) s),
      )
      (and_assoc (is_allowed c) (all_allowed s) _)

scan_all_lem : (s : String) → scan_all s ≡ (all_allowed s && varies s)
unfolding scan_all
scan_all_lem [] = refl
scan_all_lem (c ∷ s) =
    rw (passes c (scan_runes c true s), scan_runes_all c true s)
      (and_assoc (is_allowed c) (all_allowed s) _)

length_test :
    (n : ℕ) (b : Bool)
    → (if ltb n 12 || ltb 256 n then false else b) ≡ ((leb 12 n && leb n 256) && b)
length_test n b = ground arith

-- A device id is taken if, and only if, it has 12 to 256 bytes after trimming, its characters are all
-- letters, digits or one of "-_:.=", and they are not all the same.
pub valid_guest_device_fingerprint_lem :
    (device_id : String)
    → let id = trim_space device_id in
      valid_guest_device_fingerprint device_id
      ≡ ((leb 12 (byte_length id) && leb (byte_length id) 256) && (all_allowed id && varies id))
unfolding valid_guest_device_fingerprint
valid_guest_device_fingerprint_lem device_id =
    rw (scan_all_lem (trim_space device_id)) (length_test (byte_length (trim_space device_id)) _)
