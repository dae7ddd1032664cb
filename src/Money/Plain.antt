-- ===== src/Money/Plain.antt =====
-- Digit texts under the string functions that ParseMoney calls.
use Prim.Native.Char.{Char, code}
use Prim.Native.String.{[], ◌∷◌}
use mathlib.Core.List as L
use finnri_api.Base.{
  Bool, true, false, ◌&&◌, String, ◌≡◌, refl, arith, ◌==◌, trim_left, trim_right, trim_space,
  is_space, str_eq,
}
use finnri_api.Base.Numeral.{is_digit, is_minus, is_sign, parse_int, in_range, scan_digits, glue}
use finnri_api.Base.Numeral.Laws.{IsDigits}
use finnri_api.Base.Fields.{split}

-- No character is white space.
abbrev pub IsPlain : String → Type 0
IsPlain [] = Unit
IsPlain (c ∷ s) = (is_space c ≡ false) × IsPlain s

pub digit_not_space : (c : Char) → is_digit c ≡ true → is_space c ≡ false
unfolding is_space
digit_not_space c h = ground arith

pub IsDigits-IsPlain : (s : String) → IsDigits s → IsPlain s
IsDigits-IsPlain [] h = tt
IsDigits-IsPlain (c ∷ s) h = (digit_not_space c h.0, IsDigits-IsPlain s h.1)

pub glue-IsPlain : (s t : String) → IsPlain s → IsPlain t → IsPlain (glue s t)
unfolding glue
glue-IsPlain [] t h k = k
glue-IsPlain (c ∷ s) t h k = (h.0, glue-IsPlain s t h.1 k)

and_false : (b : Bool) → (b && false) ≡ false
and_false true = refl
and_false false = refl

trim_right_plain : (s : String) → IsPlain s → trim_right s ≡ s
unfolding trim_right
trim_right_plain [] h = refl
trim_right_plain (c ∷ s) h = rw (trim_right_plain s h.1, h.0, and_false (str_eq s [])) refl

pub trim_space_plain : (s : String) → IsPlain s → trim_space s ≡ s
unfolding trim_space trim_left
trim_space_plain [] h = trim_right_plain [] h
trim_space_plain (c ∷ s) h = rw (h.0) (trim_right_plain (c ∷ s) h)

-- A number and its fraction are two fields.
pub split_digits : (w : String) → IsDigits w → split 46 w ≡ L.◌∷◌ w L.[]
unfolding split
split_digits [] h = refl
split_digits (c ∷ w) h =
    rw (split_digits w h.1, (let e : (code c == 46) ≡ false = ground arith in e)) refl

pub split_point : (w t : String) → IsDigits w → split 46 (glue w ("." ∷ t)) ≡ L.◌∷◌ w (split 46 t)
unfolding split glue
split_point [] t h = refl
split_point (c ∷ w) t h =
    rw (split_point w t h.1, (let e : (code c == 46) ≡ false = ground arith in e)) refl

-- A digit text is read without a sign.
pub parse_int_digits :
    (c : Char) (w : String)
    → is_digit c ≡ true
    → parse_int (c ∷ w) ≡ in_range false (scan_digits (c ∷ w) 0)
unfolding parse_int
parse_int_digits c w h =
    rw
      (
        (let e : is_sign c ≡ false = ground arith in e),
        (let e : is_minus c ≡ false = ground arith in e),
      )
      refl
