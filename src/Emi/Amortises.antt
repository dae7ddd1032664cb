-- ===== src/Emi/Amortises.antt =====
-- What it means that a schedule pays a balance off, and what follows from it.
use finnri_api.Base.{ℕ, ◌+◌, ◌≡◌, ◌<◌, refl, ◌%◌, List, [], ◌∷◌, arith}
use finnri_api.Base.Int64.{two_64, add64}
use finnri_api.Emi.{EmiMonth, total}

-- From a month and its opening balance on, each row opens with what the row before left, repays a
-- part of it above nothing, pays that part and its interest, and the last row leaves nothing.
abbrev pub Amortises : ℕ → ℕ → List EmiMonth → Type 0
Amortises month opening [] = opening ≡ 0
Amortises month opening (r ∷ rows) =
    (r.month ≡ month)
    × (r.opening_balance ≡ opening)
    × (0 < r.principal_amount)
    × (r.closing_balance + r.principal_amount ≡ opening)
    × (r.payment_amount ≡ add64 r.principal_amount r.interest_amount)
    × Amortises (month + 1) r.closing_balance rows

-- The exact sum of the principal parts.
abbrev pub principal_sum : List EmiMonth → ℕ
principal_sum [] = 0
principal_sum (r ∷ rows) = r.principal_amount + principal_sum rows

pub principal_sum-Amortises :
    (month opening : ℕ) (rows : List EmiMonth)
    → Amortises month opening rows
    → principal_sum rows ≡ opening
principal_sum-Amortises month opening [] h = omega arith
principal_sum-Amortises month opening (r ∷ rows) h =
    omega (arith, principal_sum-Amortises (month + 1) r.closing_balance rows h.5)

-- The accumulated payments are the principal with the accumulated interest, in int64 arithmetic.
pub total-Amortises :
    (month opening paid interest base : ℕ) (rows : List EmiMonth)
    → Amortises month opening rows
    → paid ≡ (base + interest) % two_64
    → total (λ m. m.payment_amount) paid rows
      ≡ (base + opening + total (λ m. m.interest_amount) interest rows) % two_64
unfolding total
total-Amortises month opening paid interest base [] h e = omega (arith, e)
total-Amortises month opening paid interest base (r ∷ rows) h e =
    let step : add64 paid r.payment_amount
        ≡ (base + r.principal_amount + add64 interest r.interest_amount) % two_64 =
      omega (arith, e, h.4) in
    rw
      (
        total-Amortises (month + 1) r.closing_balance _ _ (base + r.principal_amount) rows h.5 step,
        (let s : base + r.principal_amount + r.closing_balance ≡ base + opening =
              omega (arith, h.3) in
            s),
      )
      refl
