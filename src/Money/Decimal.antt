-- ===== src/Money/Decimal.antt =====
-- How ParseMoney reads a decimal text with two places, in range and out of it.
use Prim.Native.Char.{Char}
use Prim.Native.String.{[], ◌∷◌}
use mathlib.Core.List as L
use finnri_api.Base.{
  ℕ, zero, suc, ◌+◌, ◌-◌, ◌*◌, ◌/◌, ◌%◌, ◌<◌, Bool, true, false, not, String, some, ◌≡◌, refl,
  arith, ltb, leb, if◌then◌else◌, Bool-cases, lt→ltb, ltb→lt, inl, inr,
}
use finnri_api.Base.Int64.{two_63, two_64, max_int64, neg64, is_negative, lt64, div64, sub64}
use finnri_api.Base.Numeral.{
  is_empty, is_digit, is_minus, is_sign, parse_int, in_range, scan_digits, digit, digits, emit,
  glue,
}
use finnri_api.Base.Numeral.Laws.{
  IsDigits, code-digit, digit_is_digit, scan_digit, scan-emit, emit-IsDigits, emit-glue,
}
use finnri_api.Base.Fields.{split}
use finnri_api.Result.{Result, ok, err, not_decimal, amount_too_large}
use finnri_api.Money.{Money, combine, char_width, read_fields, read_trimmed, with_sign, parse_money}
use finnri_api.Money.Plain.{
  IsPlain, IsDigits-IsPlain, glue-IsPlain, trim_space_plain, split_digits, split_point,
  parse_int_digits,
}

abbrev pub pair : ℕ → String
pair k = digit (k / 10) ∷ digit (k % 10) ∷ []

abbrev pub signed : Bool → String → String
signed negative s = if negative then "-" ∷ s else s

-- The text of an amount of n units and k hundredths.
abbrev pub decimal_text : Bool → ℕ → ℕ → String
decimal_text negative n k = signed negative (digits n ("." ∷ pair k))

-- What reading such a text gives.
abbrev pub reading : Bool → ℕ → ℕ → Result Money
reading negative n k =
    if ltb n two_63
    then if leb (n * 100 + k) max_int64
      then ok (if negative then neg64 (n * 100 + k) else n * 100 + k)
      else err amount_too_large
    else err not_decimal

pair-IsDigits : (k : ℕ) → k < 100 → IsDigits (pair k)
pair-IsDigits k h =
    (digit_is_digit (k / 10) (omega arith), (digit_is_digit (k % 10) (omega arith), tt))

pair_value : (k : ℕ) → k < 100 → parse_int (pair k) ≡ some k
unfolding in_range scan_digits
pair_value k h =
    rw
      (
        parse_int_digits _ _ (digit_is_digit (k / 10) (omega arith)),
        scan_digit (k / 10) (digit (k % 10) ∷ []) 0 (omega arith),
        scan_digit (k % 10) [] (0 * 10 + k / 10) (omega arith),
      )
      (last ((0 + k / 10) * 10 + k % 10) (omega arith))
  where
    last : (m : ℕ) → m ≡ k → in_range false (scan_digits [] m) ≡ some k
    last m e = rw e (rw (lt→ltb k two_63 (omega arith)) refl)

-- The bound that ParseMoney compares the units with.
room :
    (n k : ℕ)
    → k < 100
    → n < two_63
    → lt64 (div64 (sub64 max_int64 k) 100) n ≡ not (leb (n * 100 + k) max_int64)
room n k h b =
    rw (let e : (max_int64 + (two_64 - k)) % two_64 ≡ max_int64 - k = omega arith in e)
      (rw (let e : is_negative (max_int64 - k) ≡ false = ground arith in e) (ground arith))

combine-reading :
    (negative : Bool) (n k : ℕ)
    → k < 100
    → n < two_63
    → with_sign negative (combine n k) ≡ reading negative n k
unfolding combine
combine-reading negative n k h b =
    rw (room n k h b, lt→ltb n two_63 b)
      (elim (Bool-cases (leb (n * 100 + k) max_int64)) [
        | inl e ↦
            rw e
              (rw (let s : (n * 100 % two_64 + k) % two_64 ≡ n * 100 + k = ground arith in s) refl)
        | inr e ↦ rw e refl
      ])

width-digit : (d : ℕ) → d < 10 → char_width (digit d) ≡ 1
width-digit d h = rw (code-digit d h) (ground arith)

glue-nil_pair : (k : ℕ) → glue (pair k) [] ≡ pair k
unfolding glue
glue-nil_pair k = refl

-- The two fields of a decimal text are read as its numbers.
read_fields_decimal :
    (negative : Bool) (c : Char) (w : String) (n k : ℕ)
    → k < 100
    → is_digit c ≡ true
    → scan_digits (c ∷ w) 0 ≡ some n
    → with_sign negative (read_fields (L.◌∷◌ (c ∷ w) (L.◌∷◌ (pair k) L.[]))) ≡ reading negative n k
unfolding read_fields in_range
read_fields_decimal negative c w n k h d e =
    rw (width-digit (k / 10) (omega arith), width-digit (k % 10) (omega arith))
      (rw (glue-nil_pair k, pair_value k h, parse_int_digits c w d, e)
        (elim (Bool-cases (ltb n two_63)) [
          | inl lt ↦
              let step = combine-reading negative n k h (ltb→lt _ _ lt) in rw lt (rw lt at step)
          | inr ge ↦ rw ge refl
        ]))

-- The text after the sign is split at the point.
read_number :
    (negative : Bool) (w : String) (n k : ℕ)
    → k < 100
    → IsDigits w
    → is_empty w ≡ false
    → scan_digits w 0 ≡ some n
    → parse_money (signed negative (glue w ("." ∷ pair k))) ≡ reading negative n k
unfolding parse_money read_trimmed glue
read_number negative [] n k h ds ne e = cc
read_number negative (c ∷ w) n k h ds ne e =
    rw (trim_space_plain _ (signed_plain negative)) (go negative)
  where
    plain : IsPlain (glue (c ∷ w) ("." ∷ pair k))
    plain =
        glue-IsPlain (c ∷ w) ("." ∷ pair k) (IsDigits-IsPlain (c ∷ w) ds)
          (refl, IsDigits-IsPlain (pair k) (pair-IsDigits k h))

    signed_plain : (b : Bool) → IsPlain (signed b (glue (c ∷ w) ("." ∷ pair k)))
    signed_plain true = (refl, plain)
    signed_plain false = plain

    fields : split 46 (glue (c ∷ w) ("." ∷ pair k)) ≡ L.◌∷◌ (c ∷ w) (L.◌∷◌ (pair k) L.[])
    fields = rw (split_point (c ∷ w) (pair k) ds, split_digits (pair k) (pair-IsDigits k h)) refl

    go : (b : Bool) → read_trimmed (signed b (glue (c ∷ w) ("." ∷ pair k))) ≡ reading b n k
    go true = rw fields (read_fields_decimal true c w n k h ds.0 e)
    go false =
        rw
          (
            (let e : is_sign c ≡ false = ground arith in e),
            (let e : is_minus c ≡ false = ground arith in e),
            fields,
          )
          (read_fields_decimal false c w n k h ds.0 e)

emit_not_empty : (f n : ℕ) (out : String) → is_empty out ≡ false → is_empty (emit f n out) ≡ false
unfolding emit
emit_not_empty zero n out h = h
emit_not_empty (suc f) n out h = elim (Bool-cases (ltb n 10)) [
  | inl e ↦ rw e refl
  | inr e ↦ rw e (emit_not_empty f (n / 10) _ refl)
]

digits_not_empty : (n : ℕ) → is_empty (digits n []) ≡ false
unfolding digits emit
digits_not_empty n = elim (Bool-cases (ltb n 10)) [
  | inl e ↦ rw e refl
  | inr e ↦ rw e (emit_not_empty n (n / 10) _ refl)
]

-- A decimal text with two places is read as its amount, with its sign, where that is at most 2^63 - 1
-- hundredths. A larger amount is refused: as too large where the units alone are an int64, and as no
-- decimal where they are not.
pub parse_money-decimal_text :
    (negative : Bool) (n k : ℕ)
    → k < 100
    → parse_money (decimal_text negative n k) ≡ reading negative n k
unfolding glue digits scan_digits
parse_money-decimal_text negative n k h = rw (emit-glue (suc n) n [] ("." ∷ pair k)) (
    read_number negative (digits n []) n k h (emit-IsDigits (suc n) n [] tt) (digits_not_empty n)
      (scan-emit (suc n) n [] (omega arith)))
