-- ===== src/Money/RoundTrip.antt =====
-- A printed amount is read back.
use Prim.Native.String.{◌∷◌}
use finnri_api.Base.{
  ℕ, zero, suc, ◌+◌, ◌*◌, ◌/◌, ◌%◌, ◌<◌, Bool, true, false, String, Option, ◌≡◌, ◌∙◌, ap, refl,
  arith, ltb, leb, if◌then◌else◌, Bool-cases, lt→ltb, leb→le, inl, inr, ◌≢◌,
}
use finnri_api.Base.Int64.{two_63, two_64, max_int64, neg64, is_negative, div64, rem64}
use finnri_api.Base.Numeral.{digit, digits, emit, print_int}
use finnri_api.Base.Numeral.Laws.{code-digit}
use finnri_api.Result.{ok}
use finnri_api.Money.{
  Money, starts_quoted, unmarshal_json, marshal_json, scan, value, text, parse_money, two_digits,
  money_string,
}
use finnri_api.Money.Decimal.{pair, signed, reading, parse_money-decimal_text}

emit-digit : (f d : ℕ) (out : String) → 0 < f → d < 10 → emit f d out ≡ digit d ∷ out
unfolding emit
emit-digit zero d out h k = absurd (omega arith)
emit-digit (suc f) d out h k = rw (lt→ltb d 10 k) refl

not_negative : (v : ℕ) → v < two_63 → is_negative v ≡ false
not_negative v h = ground arith

two_digits-pair : (k : ℕ) → k < 100 → two_digits k ≡ pair k
unfolding two_digits print_int digits emit
two_digits-pair k h = elim (Bool-cases (leb 10 k)) [
  | inl e ↦
      rw (not_negative k (omega arith), e, (let g : ltb k 10 ≡ false = ground arith in g))
        (emit-digit k (k / 10) _ (omega (arith, leb→le 10 k e)) (omega arith))
  | inr e ↦ small (ground arith)
]
  where
    small : k < 10 → two_digits k ≡ pair k
    small lt =
        rw
          (
            not_negative k (omega arith),
            (let g : leb 10 k ≡ false = ground arith in g),
            lt→ltb k 10 lt,
            (let z : k / 10 ≡ 0 = omega arith in z),
            (let m : k % 10 ≡ k = omega arith in m),
          )
          refl

print_amount :
    (v : ℕ)
    → v < two_63
    → print_int (div64 v 100) ("." ∷ two_digits (rem64 v 100))
      ≡ digits (v / 100) ("." ∷ pair (v % 100))
unfolding print_int
print_amount v h =
    rw
      (
        not_negative v h,
        not_negative (v / 100) (omega arith),
        two_digits-pair (v % 100) (omega arith),
      )
      refl

reading_amount :
    (negative : Bool) (v : ℕ)
    → v < two_63
    → reading negative (v / 100) (v % 100) ≡ ok (if negative then neg64 v else v)
reading_amount negative v h =
    rw
      (
        lt→ltb (v / 100) two_63 (omega arith),
        (let e : v / 100 * 100 + v % 100 ≡ v = omega arith in e),
        (let e : leb v max_int64 ≡ true = ground arith in e),
      )
      refl

parse_printed :
    (negative : Bool) (v : ℕ)
    → v < two_63
    → parse_money (signed negative (print_int (div64 v 100) ("." ∷ two_digits (rem64 v 100))))
      ≡ ok (if negative then neg64 v else v)
parse_printed negative v h =
    rw (print_amount v h, parse_money-decimal_text negative (v / 100) (v % 100) (omega arith))
      (reading_amount negative v h)

read_back : (m : Money) → m < two_64 → m ≢ two_63 → parse_money (money_string m) ≡ ok m
unfolding money_string
read_back m h ne = elim (Bool-cases (is_negative m)) [
  | inl e ↦ rw e (parse_printed true (neg64 m) (ground arith) ∙ ap ok (ground arith))
  | inr e ↦ rw e (parse_printed false m (ground arith))
]

-- `starts_quoted` fails on what an amount prints as.
emit_unquoted :
    (f n : ℕ) (out : String) → starts_quoted out ≡ false → starts_quoted (emit f n out) ≡ false
unfolding emit
emit_unquoted zero n out h = h
emit_unquoted (suc f) n out h = elim (Bool-cases (ltb n 10)) [
  | inl e ↦ rw e (ground (arith, code-digit n (ground arith)))
  | inr e ↦ rw e (emit_unquoted f (n / 10) _ (ground (arith, code-digit (n % 10) (omega arith))))
]

print_unquoted : (v : ℕ) (out : String) → starts_quoted (print_int v ("." ∷ out)) ≡ false
unfolding print_int digits
print_unquoted v out = elim (Bool-cases (is_negative v)) [
  | inl e ↦ rw e refl
  | inr e ↦ rw e (emit_unquoted (suc v) v ("." ∷ out) refl)
]

unquoted : (m : Money) → starts_quoted (money_string m) ≡ false
unfolding money_string
unquoted m = elim (Bool-cases (is_negative m)) [
  | inl e ↦ rw e refl
  | inr e ↦ rw e (print_unquoted (div64 m 100) _)
]

-- Every amount but the least int64 is read back from its decimal, by ParseMoney, by UnmarshalJSON from
-- what MarshalJSON gives, and by Scan from what Value gives.
pub parse_money-money_string :
    {F : Type 0} (unquote : String → Option String) (format_float : F → String) (m : Money)
    → m < two_64
    → m ≢ two_63
    → (parse_money (money_string m) ≡ ok m)
      × (unmarshal_json unquote (marshal_json m) ≡ ok m)
      × (scan format_float (text (value m)) ≡ ok m)
unfolding unmarshal_json marshal_json scan value
parse_money-money_string unquote format_float m h ne =
    (read_back m h ne, rw (unquoted m) (read_back m h ne), read_back m h ne)
