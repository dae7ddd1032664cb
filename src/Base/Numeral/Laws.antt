-- ===== src/Base/Numeral/Laws.antt =====
-- What is printed is read back, and consists of digits.
use Prim.Native.Nat.{ℕ, zero, suc, ◌+◌, ◌-◌, ◌*◌, ◌/◌, ◌%◌, ◌<◌}
use Prim.Native.Char.{code}
use Prim.Native.String.{String, [], ◌∷◌}
use mathlib.Core.Path.{◌≡◌, refl}
use mathlib.Core.Bool.{true}
use mathlib.Core.Logic.{inl, inr}
use native.Mathlib.Omega.{arith}
use finnri_api.Base.Tests.{Bool-cases, ltb}
use finnri_api.Base.Numeral.{is_digit, scan_digits, digit, emit, glue}

abbrev pub IsDigits : String → Type 0
IsDigits [] = Unit
IsDigits (c ∷ s) = (is_digit c ≡ true) × IsDigits s

-- A digit's character has the code of its value.
pub code-digit : (d : ℕ) → d < 10 → code (digit d) ≡ 48 + d
code-digit zero h = refl
code-digit (suc zero) h = refl
code-digit (suc (suc zero)) h = refl
code-digit (suc (suc (suc zero))) h = refl
code-digit (suc (suc (suc (suc zero)))) h = refl
code-digit (suc (suc (suc (suc (suc zero))))) h = refl
code-digit (suc (suc (suc (suc (suc (suc zero)))))) h = refl
code-digit (suc (suc (suc (suc (suc (suc (suc zero))))))) h = refl
code-digit (suc (suc (suc (suc (suc (suc (suc (suc zero)))))))) h = refl
code-digit (suc (suc (suc (suc (suc (suc (suc (suc (suc d))))))))) h = ground arith

pub digit_is_digit : (d : ℕ) → d < 10 → is_digit (digit d) ≡ true
digit_is_digit d h = ground (arith, code-digit d h)

-- Reading a printed digit appends it to the number.
pub scan_digit :
    (d : ℕ) (s : String) (n : ℕ) → d < 10 → scan_digits (digit d ∷ s) n ≡ scan_digits s (n * 10 + d)
unfolding scan_digits
scan_digit d s n h =
    rw (digit_is_digit d h, code-digit d h) (rw (let e : 48 + d - 48 ≡ d = omega arith in e) refl)

-- Reading the digits of n leaves n.
pub scan-emit : (f n : ℕ) (out : String) → n < f → scan_digits (emit f n out) 0 ≡ scan_digits out n
unfolding emit
scan-emit zero n out h = absurd (omega arith)
scan-emit (suc f) n out h = elim (Bool-cases (ltb n 10)) [
  | inl e ↦ rw e (ground (arith, scan_digit n out 0))
  | inr e ↦ rw e (
      ground (arith, scan_digit (n % 10) out (n / 10), scan-emit f (n / 10) (digit (n % 10) ∷ out)))
]

pub emit-IsDigits : (f n : ℕ) (out : String) → IsDigits out → IsDigits (emit f n out)
unfolding emit
emit-IsDigits zero n out h = h
emit-IsDigits (suc f) n out h = elim (Bool-cases (ltb n 10)) [
  | inl e ↦ rw e (digit_is_digit n (ground arith), h)
  | inr e ↦ rw e (emit-IsDigits f (n / 10) _ (digit_is_digit (n % 10) (omega arith), h))
]

pub glue-nil : (s : String) → glue s [] ≡ s
unfolding glue
glue-nil [] = refl
glue-nil (c ∷ s) = rw (glue-nil s) refl

-- Printing in front of a text is printing, then the text.
pub emit-glue : (f n : ℕ) (out tail : String) → emit f n (glue out tail) ≡ glue (emit f n out) tail
unfolding emit glue
emit-glue zero n out tail = refl
emit-glue (suc f) n out tail = elim (Bool-cases (ltb n 10)) [
  | inl e ↦ rw e refl
  | inr e ↦ rw e (emit-glue f (n / 10) (digit (n % 10) ∷ out) tail)
]

pub glue-IsDigits : (s t : String) → IsDigits s → IsDigits t → IsDigits (glue s t)
unfolding glue
glue-IsDigits [] t h k = k
glue-IsDigits (c ∷ s) t h k = (h.0, glue-IsDigits s t h.1 k)
