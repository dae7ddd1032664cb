-- ===== src/Base/Numeral.antt =====
-- `strconv.ParseInt(s, 10, 64)` and `fmt`'s `%d` of an int64, over the native texts.
pub mod Laws
use Prim.Native.Nat.{ℕ, zero, suc, ◌+◌, ◌-◌, ◌*◌, ◌/◌, ◌%◌}
use Prim.Native.Char.{Char, code}
use Prim.Native.String.{String, [], ◌∷◌}
use mathlib.Core.Bool.{Bool, true, false, ◌&&◌, ◌||◌}
use mathlib.Core.Option.{Option, none, some}
use finnri_api.Base.Tests.{ltb, leb, ◌==◌, if◌then◌else◌}
use finnri_api.Base.Int64.{Int64, two_63, two_64, neg64, is_negative}

abbrev pub is_empty : String → Bool
is_empty [] = true
is_empty (c ∷ s) = false

abbrev pub is_minus : Char → Bool
is_minus c = code c == 45

abbrev pub is_sign : Char → Bool
is_sign c = code c == 45 || code c == 43

abbrev pub is_digit : Char → Bool
is_digit c = leb 48 (code c) && leb (code c) 57

-- The value of the digits after those read so far; `none` at any other character.
unfoldable pub scan_digits : String → ℕ → Option ℕ
scan_digits [] n = some n
scan_digits (c ∷ s) n =
    let rest = scan_digits s (n * 10 + (code c - 48)) in if is_digit c then rest else none

unfoldable pub unsigned : String → Option ℕ
unfolding scan_digits
unsigned [] = none
unsigned (c ∷ s) = scan_digits (c ∷ s) 0

-- The range check of `ParseInt`: at most 2^63 - 1, or 2^63 after a minus.
unfoldable pub in_range : Bool → Option ℕ → Option Int64
in_range negative none = none
in_range true (some n) = if leb n two_63 then some (neg64 n) else none
in_range false (some n) = if ltb n two_63 then some n else none

unfoldable pub parse_int : String → Option Int64
unfolding in_range unsigned
parse_int [] = none
parse_int (c ∷ s) = in_range (is_minus c) (unsigned (if is_sign c then s else c ∷ s))

abbrev pub digit : ℕ → Char
digit zero = "0"
digit (suc zero) = "1"
digit (suc (suc zero)) = "2"
digit (suc (suc (suc zero))) = "3"
digit (suc (suc (suc (suc zero)))) = "4"
digit (suc (suc (suc (suc (suc zero))))) = "5"
digit (suc (suc (suc (suc (suc (suc zero)))))) = "6"
digit (suc (suc (suc (suc (suc (suc (suc zero))))))) = "7"
digit (suc (suc (suc (suc (suc (suc (suc (suc zero)))))))) = "8"
digit (suc (suc (suc (suc (suc (suc (suc (suc (suc _))))))))) = "9"

-- The digits of n in front of a text. A number has fewer digits than its own value plus one.
unfoldable pub emit : ℕ → ℕ → String → String
emit zero n out = out
emit (suc f) n out =
    let rest = emit f (n / 10) (digit (n % 10) ∷ out) in if ltb n 10 then digit n ∷ out else rest

unfoldable pub digits : ℕ → String → String
unfolding emit
digits n out = emit (suc n) n out

-- `%d` of an int64 in front of a text.
unfoldable pub print_int : Int64 → String → String
unfolding digits
print_int v out = if is_negative v then "-" ∷ digits (two_64 - v) out else digits v out

-- `s + t`, by the characters of s.
unfoldable pub glue : String → String → String
glue [] t = t
glue (c ∷ s) t = c ∷ glue s t
