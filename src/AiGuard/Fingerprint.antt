-- ===== src/AiGuard/Fingerprint.antt =====
-- validGuestDeviceFingerprint: which device ids of a guest are taken.
pub mod Valid
use Prim.Native.Char.{Char, code}
use Prim.Native.String.{[], ◌∷◌}
use finnri_api.Base.{
  ℕ, ltb, leb, ◌==◌, Bool, true, false, not, ◌&&◌, ◌||◌, String, if◌then◌else◌, trim_space,
}
use finnri_api.Money.{byte_length}

-- A letter, a digit or one of "-_:.=".
unfoldable pub is_allowed : Char → Bool
is_allowed c =
    let r = code c in
    (leb 97 r && leb r 122)
    || (leb 65 r && leb r 90)
    || (leb 48 r && leb r 57)
    || r == 45
    || r == 95
    || r == 58
    || r == 46
    || r == 61

-- What the loop refuses before it compares with the first character.
abbrev pub is_control : Char → Bool
is_control c = leb (code c) 32 || code c == 127

-- The loop after its first character; what is left at the end is whether all were the same.
unfoldable pub scan_runes : Char → Bool → String → Bool
unfolding is_allowed
scan_runes first all_same [] = not all_same
scan_runes first all_same (c ∷ s) =
    let rest = scan_runes first (all_same && code c == code first) s in
    if is_control c then false else if not (is_allowed c) then false else rest

unfoldable pub scan_all : String → Bool
unfolding scan_runes
scan_all [] = false
scan_all (c ∷ s) =
    if is_control c then false else if not (is_allowed c) then false else scan_runes c true s

unfoldable pub valid_guest_device_fingerprint : String → Bool
unfolding scan_all trim_space
valid_guest_device_fingerprint device_id =
    let id = trim_space device_id in
    if ltb (byte_length id) 12 || ltb 256 (byte_length id) then false else scan_all id
