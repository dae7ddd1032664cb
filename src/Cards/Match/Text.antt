-- ===== src/Cards/Match/Text.antt =====
-- What a statement's line says: its kind, and the words that it shares with an entry.
use Prim.Native.Char.{Char}
use Prim.Native.String.{[], ◌∷◌, slice}
use text.Mathlib.Text.{starts_with}
use mathlib.Core.List as L
use finnri_api.Base.{
  ℕ, suc, ◌+◌, ◌-◌, ◌*◌, leb, ltb, ◌==◌, Bool, ◌||◌, String, str_eq, List, Option, none, some,
  if◌then◌else◌, trim_space, length, any_of,
}
use finnri_api.Base.Numeral.{is_empty}
use finnri_api.Money.{Money, byte_length}

-- What the code uses of `strings`, `unicode` and `time`: ToUpper, ToLower, EqualFold, whether a
-- character is a letter or a digit, and the number of the day that a text like 2006-01-02 names.
pub record Strings : Type 0 where
  pub upper : String → String
  pub lower : String → String
  pub equal_fold : String → String → Bool
  pub is_letter : Char → Bool
  pub is_digit : Char → Bool
  pub parse_day : String → Option ℕ

pub record StatementLine : Type 0 where
  pub date : String
  pub description : String
  pub amount : Money
  pub type : String

pub record LedgerLine : Type 0 where
  pub entry_id : ℕ
  pub date : String
  pub title : String
  pub merchant : String
  pub category : String
  pub amount : Money
  pub type : String
  pub tag : String
  pub outside_cycle : Bool

pub data LineKind : Type 0 where
  spend refund payment fee interest emi : LineKind

unfoldable pub contains : String → String → Bool
contains [] marker = is_empty marker
contains (c ∷ s) marker = starts_with (c ∷ s) marker || contains s marker

abbrev payment_markers : List String
payment_markers = L.◌∷◌ "PAYMENT RECEIVED" (
    L.◌∷◌ "PAYMENT - THANK" (
      L.◌∷◌ "PAYMENT THANK" (
        L.◌∷◌ "THANK YOU" (
          L.◌∷◌ "AUTOPAY" (
            L.◌∷◌ "AUTO DEBIT" (
              L.◌∷◌ "AUTO-DEBIT" (
                L.◌∷◌ "NEFT CR" (
                  L.◌∷◌ "IMPS CR" (
                    L.◌∷◌ "BILL PAYMENT"
                      (L.◌∷◌ "PMT RECEIVED" (L.◌∷◌ "RECEIVED - THANK" L.[])))))))))))

abbrev interest_markers : List String
interest_markers = L.◌∷◌ "INTEREST" (L.◌∷◌ "FINANCE CHARGE" (L.◌∷◌ "FIN CHARGE" L.[]))

abbrev fee_markers : List String
fee_markers = L.◌∷◌ "FEE" (
    L.◌∷◌ "CHARGE" (
      L.◌∷◌ "GST" (
        L.◌∷◌ "TAX" (
          L.◌∷◌ "SURCHARGE"
            (L.◌∷◌ "PENALTY" (L.◌∷◌ "LATE PAY" (L.◌∷◌ "ANNUAL" (L.◌∷◌ "MARKUP" L.[]))))))))

abbrev emi_markers : List String
emi_markers = L.◌∷◌ "EMI" (L.◌∷◌ "INSTALMENT" (L.◌∷◌ "INSTALLMENT" L.[]))

-- The maximal runs of characters that pass: the one being read, and those after it.
abbrev flush : String → List String → List String
flush [] done = done
flush (c ∷ word) done = L.◌∷◌ (c ∷ word) done

runs : (Char → Bool) → String → String × List String
runs p [] = ([], L.[])
runs p (c ∷ s) =
    let (word, done) = runs p s in if p c then (c ∷ word, done) else ([], flush word done)

unfoldable pub fields_func : (Char → Bool) → String → List String
unfolding runs
fields_func p s = let (word, done) = runs p s in flush word done

abbrev description_noise : List String
description_noise = L.◌∷◌ "upi" (
    L.◌∷◌ "pos" (
      L.◌∷◌ "neft" (
        L.◌∷◌ "imps" (
          L.◌∷◌ "atm" (
            L.◌∷◌ "pvt" (
              L.◌∷◌ "ltd" (
                L.◌∷◌ "limited" (
                  L.◌∷◌ "india" (
                    L.◌∷◌ "ind" (
                      L.◌∷◌ "payment" (
                        L.◌∷◌ "purchase" (
                          L.◌∷◌ "txn" (
                            L.◌∷◌ "ref" (
                              L.◌∷◌ "card" (
                                L.◌∷◌ "the" (
                                  L.◌∷◌ "and"
                                    (L.◌∷◌ "for" (L.◌∷◌ "www" (L.◌∷◌ "com" L.[])))))))))))))))))))

-- The keys of the set of tokens.
collect_tokens : List String → List String
collect_tokens L.[] = L.[]
collect_tokens (L.◌∷◌ field fields) =
    let tokens = collect_tokens fields in
    if ltb (byte_length field) 3
      || any_of (str_eq field) description_noise
      || any_of (str_eq field) tokens
    then tokens
    else L.◌∷◌ field tokens

count_shared : List String → List String → ℕ
count_shared L.[] right = 0
count_shared (L.◌∷◌ token left) right =
    let rest = count_shared left right in if any_of (str_eq token) right then suc rest else rest

-- A fraction, shared / smaller. The floats that the code divides compare as the fractions do.
pub record Similarity : Type 0 where
  pub shared : ℕ
  pub smaller : ℕ

abbrev pub more_similar : Similarity → Similarity → Bool
more_similar a b = ltb (b.shared * a.smaller) (a.shared * b.smaller)

module _ (st : Strings) where
  unfoldable pub is_credit : StatementLine → Bool
  unfolding trim_space
  is_credit line = st.equal_fold (trim_space line.type) "income"

  unfoldable pub is_income : LedgerLine → Bool
  is_income entry = st.equal_fold entry.type "income"

  unfoldable pub classify_line : StatementLine → LineKind
  unfolding contains is_credit
  classify_line line =
      let normalized = st.upper line.description in
      if is_credit line
      then if any_of (contains normalized) payment_markers then payment else refund
      else if any_of (contains normalized) interest_markers
      then interest
      else if any_of (contains normalized) fee_markers
      then fee
      else if any_of (contains normalized) emi_markers
      then emi
      else spend

  -- parseAPIDate
  unfoldable pub parse_api_date : String → Option ℕ
  unfolding trim_space
  parse_api_date value =
      let trimmed = trim_space value in
      st.parse_day (if leb 10 (byte_length trimmed) then slice trimmed 0 10 else trimmed)

  abbrev distance : Option ℕ → Option ℕ → Option ℕ
  distance none right = none
  distance (some l) none = none
  distance (some l) (some r) = some (l - r + (r - l))

  unfoldable pub day_gap : String → String → Option ℕ
  unfolding parse_api_date
  day_gap left right = distance (parse_api_date left) (parse_api_date right)

  unfoldable pub description_tokens : String → List String
  unfolding fields_func collect_tokens
  description_tokens value =
      collect_tokens (fields_func (λ c. st.is_letter c || st.is_digit c) (st.lower value))

  unfoldable pub describe_similarity : String → String → Similarity
  unfolding description_tokens count_shared
  describe_similarity left right =
      let l = length (description_tokens left) in
      let r = length (description_tokens right) in
      if l == 0 || r == 0 then record { shared = 0; smaller = 1 } else record {
        shared = count_shared (description_tokens left) (description_tokens right);
        smaller = if ltb r l then r else l;
      }
