-- ===== src/Utilities/Decimal.antt =====
-- Integers on a formatted stream: printing, and reading again.
use cs.Base.{
  ℕ, zero, suc, ◌+◌, ◌-◌, ◌*◌, ◌/◌, ◌%◌, ◌^◌, ◌<◌, ◌≡◌, refl, sym, ap, ◌∙◌, true, false, some, List,
  [], ◌∷◌, ◌++◌, ltb, ◌==◌, All, All-append, arith, Bool-cases, inl, inr,
}
use cs.Base.Int.{ℤ, pos, negsuc}
use cs.Base.Word.{IsInt}
use cs.Utilities.{
  minus, zero_digit, digits, put_number, put_integer, is_space, is_digit, skip_spaces, read_digits,
  negate, read_number, read_signed, read_integer,
}

-- The number that digits stand for, behind those of `acc`.
unfoldable pub value : ℕ → List ℕ → ℕ
value acc [] = acc
value acc (c ∷ cs) = value (10 * acc + (c - zero_digit)) cs

abbrev pub AllDigits : List ℕ → Type 0
AllDigits = All (λ c. is_digit c ≡ true)

-- What comes next is no digit.
abbrev pub NoDigit : List ℕ → Type 0
NoDigit [] = Unit {0}
NoDigit (c ∷ cs) = is_digit c ≡ false

pub value-append : (acc : ℕ) (xs ys : List ℕ) → value acc (xs ++ ys) ≡ value (value acc xs) ys
unfolding value
value-append acc [] ys = refl
value-append acc (c ∷ xs) ys = value-append (10 * acc + (c - zero_digit)) xs ys

pub digits-AllDigits : (fuel n : ℕ) → AllDigits (digits fuel n)
unfolding digits
digits-AllDigits zero n = tt
digits-AllDigits (suc fuel) n = elim (Bool-cases (ltb n 10)) [
  | inl small ↦ rw small (ground arith, tt)
  | inr large ↦ rw large (
      All-append (λ c. is_digit c ≡ true) (digits fuel (n / 10)) ((zero_digit + n % 10) ∷ [])
        (digits-AllDigits fuel (n / 10)) (ground arith, tt))
]

pub value-digits : (fuel n : ℕ) → n < fuel → value 0 (digits fuel n) ≡ n
unfolding digits value
value-digits zero n h = absurd (omega arith)
value-digits (suc fuel) n h = elim (Bool-cases (ltb n 10)) [
  | inl small ↦ rw small (omega arith)
  | inr large ↦
      let shorter : n / 10 < fuel = ground arith in
      rw
        (
          large,
          value-append 0 (digits fuel (n / 10)) ((zero_digit + n % 10) ∷ []),
          value-digits fuel (n / 10) shorter,
        )
        (omega arith)
]

abbrev Headed : List ℕ → Type 0
Headed xs = (c : ℕ) × (cs : List ℕ) × (xs ≡ c ∷ cs)

digits-Headed : (fuel n : ℕ) → n < fuel → Headed (digits fuel n)
unfolding digits
digits-Headed zero n h = absurd (omega arith)
digits-Headed (suc fuel) n h = elim (Bool-cases (ltb n 10)) [
  | inl small ↦ rw small (_, _, refl)
  | inr large ↦
      let shorter : n / 10 < fuel = ground arith in
      let (c, cs, e) = digits-Headed fuel (n / 10) shorter in
      rw (large, e) (c, cs ++ (zero_digit + n % 10) ∷ [], refl)
]

-- Reading digits stops at the first character that is none.
pub read_digits-value :
    (acc : ℕ) (xs rest : List ℕ)
    → AllDigits xs
    → NoDigit rest
    → read_digits acc (xs ++ rest) ≡ (value acc xs, rest)
unfolding read_digits value
read_digits-value acc [] [] a stop = refl
read_digits-value acc [] (c ∷ cs) a stop = rw stop refl
read_digits-value acc (c ∷ xs) rest a stop =
    rw (a.0) (read_digits-value (10 * acc + (c - zero_digit)) xs rest a.1 stop)

-- A row of digits, with what comes next.
read_number-digits :
    (bound : ℕ) (sign : ℕ → ℤ) (c : ℕ) (cs rest : List ℕ)
    → AllDigits (c ∷ cs)
    → value 0 (c ∷ cs) < bound
    → NoDigit rest
    → read_number bound sign (c ∷ (cs ++ rest)) ≡ some (sign (value 0 (c ∷ cs)), rest)
unfolding read_number value
read_number-digits bound sign c cs rest a h stop =
    rw (a.0, read_digits-value (10 * 0 + (c - zero_digit)) cs rest a.1 stop) (ground arith)

pub read_number-put_number :
    (bound : ℕ) (sign : ℕ → ℤ) (n : ℕ) (rest : List ℕ)
    → n < bound
    → NoDigit rest
    → read_number bound sign (put_number n ++ rest) ≡ some (sign n, rest)
unfolding put_number
read_number-put_number bound sign n rest h stop =
    let (c, cs, e) = digits-Headed (suc n) n (omega arith) in
    let a : AllDigits (c ∷ cs) = rw e at (digits-AllDigits (suc n) n) in
    let v : value 0 (c ∷ cs) ≡ n = ap (value 0) (sym e) ∙ value-digits (suc n) n (omega arith) in
    rw e (
      read_number-digits bound sign c cs rest a (omega (arith, v)) stop
      ∙ ap (λ (k : ℕ). some (sign k, rest)) v)

-- A number that starts a text is neither a space nor a sign.
read_integer-digit :
    (c : ℕ) (text : List ℕ)
    → is_digit c ≡ true
    → read_integer (c ∷ text) ≡ read_number (2 ^ 31) pos (c ∷ text)
unfolding read_integer read_signed skip_spaces
read_integer-digit c text d =
    let no_space : is_space c ≡ false = ground arith in
    let no_minus : (c == minus) ≡ false = ground arith in
    let no_plus : (c == b'+') ≡ false = ground arith in rw (no_space, no_minus, no_plus) refl

pub put_number-Headed :
    (n : ℕ) → (c : ℕ) × (cs : List ℕ) × (put_number n ≡ c ∷ cs) × (is_digit c ≡ true)
unfolding put_number
put_number-Headed n =
    let (c, cs, e) = digits-Headed (suc n) n (omega arith) in
    let a : AllDigits (c ∷ cs) = rw e at (digits-AllDigits (suc n) n) in (c, cs, e, a.0)

pub put_integer-pos : (n : ℕ) → put_integer (pos n) ≡ put_number n
unfolding put_integer
put_integer-pos n = refl

read_integer-minus :
    (text : List ℕ) → read_integer (minus ∷ text) ≡ read_number (2 ^ 31 + 1) negate text
unfolding read_integer read_signed skip_spaces
read_integer-minus text = refl

pub put_integer-negsuc : (n : ℕ) → put_integer (negsuc n) ≡ minus ∷ put_number (suc n)
unfolding put_integer
put_integer-negsuc n = refl

-- An `int` that is printed is read back, if no digit comes behind it.
pub read_integer-put_integer :
    (x : ℤ) (rest : List ℕ)
    → IsInt x
    → NoDigit rest
    → read_integer (put_integer x ++ rest) ≡ some (x, rest)
read_integer-put_integer (pos n) rest h stop =
    let (c, cs, e, d) = put_number-Headed n in
    ap (λ (t : List ℕ). read_integer (t ++ rest)) (put_integer-pos n ∙ e)
    ∙ (read_integer-digit c (cs ++ rest) d
        ∙ (ap (λ (t : List ℕ). read_number (2 ^ 31) pos (t ++ rest)) (sym e)
            ∙ read_number-put_number (2 ^ 31) pos n rest h.0 stop))
read_integer-put_integer (negsuc n) rest h stop =
    ap (λ (t : List ℕ). read_integer (t ++ rest)) (put_integer-negsuc n)
    ∙ (read_integer-minus (put_number (suc n) ++ rest)
        ∙ read_number-put_number (2 ^ 31 + 1) negate (suc n) rest (omega (arith, h.1)) stop)
