-- ===== src/Money.antt =====
-- internal/models/money.go: amounts as int64 minor units, read and printed as decimals.
mod Plain
pub mod Decimal
pub mod RoundTrip
use Prim.Native.Char.{Char, code}
use Prim.Native.String.{[], ◌∷◌}
use mathlib.Core.List as L
use finnri_api.Base.{
  ℕ, zero, suc, ◌+◌, ◌-◌, leb, ◌==◌, Bool, true, false, ◌||◌, String, Option, none, some, ltb,
  if◌then◌else◌, trim_space, List,
}
use finnri_api.Base.Int64.{
  Int64, max_int64, is_negative, add64, sub64, mul64, neg64, div64, rem64, lt64,
}
use finnri_api.Base.Numeral.{is_empty, is_minus, is_sign, parse_int, print_int, glue}
use finnri_api.Base.Fields.{split}
use finnri_api.Result.{
  Result, ok, err, ◌>>=◌, from_option, amount_required, not_decimal, too_many_places,
  amount_too_large, invalid_json, unsupported_value,
}

abbrev pub Money : Type 0
Money = Int64

abbrev pub char_width : Char → ℕ
char_width c =
    if ltb (code c) 0x80
    then 1
    else if ltb (code c) 0x800
    then 2
    else if ltb (code c) 0x10000
    then 3
    else 4

-- `len` of a string, in bytes of its UTF-8
abbrev pub byte_length : String → ℕ
byte_length [] = 0
byte_length (c ∷ s) = char_width c + byte_length s

-- `strings.Repeat("0", n)`
abbrev pub zeros : ℕ → String
zeros zero = []
zeros (suc n) = "0" ∷ zeros n

abbrev whole_number : String → Result Int64
whole_number s = from_option not_decimal (parse_int s)

unfoldable pub combine : Int64 → Int64 → Result Money
combine major minor =
    if lt64 (div64 (sub64 max_int64 minor) 100) major
    then err amount_too_large
    else ok (add64 (mul64 major 100) minor)

unfoldable pub read_fields : List String → Result Money
unfolding combine parse_int glue
read_fields L.[] = err not_decimal
read_fields (L.◌∷◌ whole L.[]) =
    if is_empty whole then err not_decimal else do major ← whole_number whole; combine major 0
read_fields (L.◌∷◌ whole (L.◌∷◌ part L.[])) =
    if is_empty whole
    then err not_decimal
    else if ltb 2 (byte_length part)
    then err too_many_places
    else do
      major ← whole_number whole
      minor ← whole_number (glue part (zeros (2 - byte_length part)))
      combine major minor
read_fields (L.◌∷◌ whole (L.◌∷◌ part (L.◌∷◌ more rest))) = err not_decimal

abbrev pub with_sign : Bool → Result Money → Result Money
with_sign negative (err e) = err e
with_sign negative (ok m) = ok (if negative then neg64 m else m)

unfoldable pub read_trimmed : String → Result Money
unfolding read_fields split
read_trimmed [] = err amount_required
read_trimmed (c ∷ s) =
    with_sign (is_minus c) (read_fields (split 46 (if is_sign c then s else c ∷ s)))

-- ParseMoney
unfoldable pub parse_money : String → Result Money
unfolding read_trimmed trim_space
parse_money value = read_trimmed (trim_space value)

-- `%02d` of a remainder, at the end of a text
unfoldable pub two_digits : Int64 → String
unfolding print_int
two_digits v = if is_negative v || leb 10 v then print_int v [] else "0" ∷ print_int v []

-- Money.String
unfoldable pub money_string : Money → String
unfolding print_int two_digits
money_string m =
    let negative = is_negative m in
    let v = if negative then neg64 m else m in
    let body = print_int (div64 v 100) ("." ∷ two_digits (rem64 v 100)) in
    if negative then "-" ∷ body else body

unfoldable pub is_positive : Money → Bool
is_positive m = lt64 0 m

-- MarshalJSON and Value: both give the decimal.
unfoldable pub marshal_json : Money → String
unfolding money_string
marshal_json m = money_string m

unfoldable pub value : Money → String
unfolding money_string
value m = money_string m

-- What a database driver hands to Scan; F is the type of its floats.
pub data DriverValue (F : Type 0) : Type 0 where
  null : DriverValue F
  bytes : String → DriverValue F
  text : String → DriverValue F
  int64 : Int64 → DriverValue F
  float64 : F → DriverValue F
  other : DriverValue F

abbrev pub starts_quoted : String → Bool
starts_quoted [] = false
starts_quoted (c ∷ s) = code c == 34

-- UnmarshalJSON; `unquote` is `json.Unmarshal` of a JSON string.
unfoldable pub unmarshal_json : (String → Option String) → String → Result Money
unfolding parse_money
unmarshal_json unquote raw =
    if starts_quoted raw
    then (from_option invalid_json (unquote raw) >>= λ s. parse_money s)
    else parse_money raw

-- Scan; `format_float` is `strconv.FormatFloat` with two decimals.
unfoldable pub scan : {F : Type 0} → (F → String) → DriverValue F → Result Money
unfolding parse_money print_int
scan format_float null = ok 0
scan format_float (bytes raw) = parse_money raw
scan format_float (text raw) = parse_money raw
scan format_float (int64 n) = parse_money (print_int n [])
scan format_float (float64 x) = parse_money (format_float x)
scan format_float other = err unsupported_value
