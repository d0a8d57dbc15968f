-- ===== src/Programs/Arguments.antt =====
-- The arguments that main (src/ServerMain.cpp) reads: numbers that are printed, and the places of
-- `argv`.
use cs.Base.{
  ℕ, zero, suc, ◌+◌, ◌*◌, ◌^◌, ◌<◌, ◌≤◌, ◌≡◌, ◌≢◌, refl, sym, ap, ◌∙◌, true, false, Option, none,
  some, List, [], ◌∷◌, append-nil, length, get_elem?, ltb, ◌==◌, arith,
}
use cs.Base.Int.{ℤ, pos, negsuc}
use cs.Base.Word.{IsInt}
use cs.Programs.{
  Access, fine, overflow, past_end, ◌>>=◌, atoi, atoi_signed, argument, number_or, number, peers,
}
use cs.Utilities.{
  minus, put_number, put_integer, is_digit, is_space, skip_spaces, read_digits, negate, digits,
}
use cs.Utilities.Decimal.{
  digits-AllDigits, value-digits, read_digits-value, put_number-Headed, put_integer-pos,
  put_integer-negsuc,
}

read_digits-put_number : (n : ℕ) → read_digits 0 (put_number n) ≡ (n, [])
unfolding put_number
read_digits-put_number n =
    ap (read_digits 0) (sym (append-nil (digits (suc n) n)))
    ∙ read_digits-value 0 (digits (suc n) n) [] (digits-AllDigits (suc n) n) tt
    ∙ ap (λ (k : ℕ). (k, [])) (value-digits (suc n) n (omega arith))

atoi-digit :
    (c : ℕ) (text : List ℕ) (n : ℕ) (rest : List ℕ)
    → is_digit c ≡ true
    → read_digits 0 (c ∷ text) ≡ (n, rest)
    → n < 2 ^ 31
    → atoi (c ∷ text) ≡ some (pos n)
unfolding atoi atoi_signed skip_spaces
atoi-digit c text n rest d e small =
    let no_space : is_space c ≡ false = ground arith in
    let no_minus : (c == minus) ≡ false = ground arith in
    let no_plus : (c == b'+') ≡ false = ground arith in
    let fits : ltb n (2 ^ 31) ≡ true = ground arith in
    rw (no_space, no_minus, no_plus, e, fits) refl

atoi-minus :
    (text : List ℕ) (n : ℕ) (rest : List ℕ)
    → read_digits 0 text ≡ (n, rest)
    → n < 2 ^ 31 + 1
    → atoi (minus ∷ text) ≡ some (negate n)
unfolding atoi atoi_signed skip_spaces
atoi-minus text n rest e small =
    let fits : ltb n (2 ^ 31 + 1) ≡ true = ground arith in rw (e, fits) refl

-- An `int` that was printed.
pub atoi-put_integer : (x : ℤ) → IsInt x → atoi (put_integer x) ≡ some x
atoi-put_integer (pos n) h =
    let (c, cs, e, d) = put_number-Headed n in
    ap atoi (put_integer-pos n ∙ e)
    ∙ atoi-digit c cs n [] d (ap (read_digits 0) (sym e) ∙ read_digits-put_number n) h.0
atoi-put_integer (negsuc n) h =
    ap atoi (put_integer-negsuc n)
    ∙ atoi-minus (put_number (suc n)) (suc n) [] (read_digits-put_number (suc n))
        (omega (arith, h.1))

-- From argv[k] on stands `texts`.
abbrev pub StandsAt : ℕ → List (List ℕ) → List (List ℕ) → Type 0
StandsAt k texts argv = (j : ℕ) → get_elem? argv (k + j) ≡ get_elem? texts j

pub StandsAt-first : (text : List ℕ) (texts : List (List ℕ)) → StandsAt 1 texts (text ∷ texts)
StandsAt-first text texts j = let e : 1 + j ≡ suc j = omega arith in ap (get_elem? (text ∷ texts)) e

pub StandsAt-next :
    (k : ℕ) (text : List ℕ) (texts argv : List (List ℕ))
    → StandsAt k (text ∷ texts) argv
    → StandsAt (k + 1) texts argv
StandsAt-next k text texts argv h j = ap (get_elem? argv) (omega arith) ∙ h (suc j)

pub argument-StandsAt :
    (k : ℕ) (text : List ℕ) (texts argv : List (List ℕ))
    → StandsAt k (text ∷ texts) argv
    → argument k argv ≡ fine text
unfolding argument
argument-StandsAt k text texts argv h =
    let here : get_elem? argv k ≡ some text = ap (get_elem? argv) (omega arith) ∙ h 0 in
    rw here refl

pub number-StandsAt :
    (k : ℕ) (x : ℤ) (texts argv : List (List ℕ))
    → IsInt x
    → StandsAt k (put_integer x ∷ texts) argv
    → number k argv ≡ fine x
unfolding number
number-StandsAt k x texts argv i h =
    rw (argument-StandsAt k (put_integer x) texts argv h, atoi-put_integer x i) refl

-- An access within `argv` does not go past its end.
get_elem?-within :
    {A : Type 0} (xs : List A) (k : ℕ) → k < length xs → (x : A) × (get_elem? xs k ≡ some x)
get_elem?-within [] k h = absurd (omega arith)
get_elem?-within (x ∷ xs) zero h = (x, refl)
get_elem?-within (x ∷ xs) (suc k) h = get_elem?-within xs k (omega arith)

-- The access does not go past the end.
abbrev pub IsWithin : {A : Type 0} → Access A → Type 0
IsWithin a = a ≢ past_end

pub bind-IsWithin :
    {A B : Type 0} (m : Access A) (f : A → Access B)
    → IsWithin m
    → ((a : A) → m ≡ fine a → IsWithin (f a))
    → IsWithin (m >>= f)
bind-IsWithin (fine a) f h k = k a refl
bind-IsWithin overflow f h k = λ e. cc
bind-IsWithin past_end f h k = absurd (h refl)

pub argument-IsWithin :
    (k : ℕ) (argv : List (List ℕ)) → k < length argv → IsWithin (argument k argv)
unfolding argument
argument-IsWithin k argv h = let (x, e) = get_elem?-within argv k h in rw e (λ p. cc)

number_or-IsWithin : (o : Option ℤ) → IsWithin (number_or o)
number_or-IsWithin none = λ p. cc
number_or-IsWithin (some x) = λ p. cc

pub number-IsWithin : (k : ℕ) (argv : List (List ℕ)) → k < length argv → IsWithin (number k argv)
unfolding number
number-IsWithin k argv h =
    bind-IsWithin (argument k argv) _ (argument-IsWithin k argv h)
      (λ text e. number_or-IsWithin (atoi text))

pub peers-IsWithin :
    (n k : ℕ) (argv : List (List ℕ)) → k + 3 * n ≤ length argv → IsWithin (peers n k argv)
unfolding peers
peers-IsWithin zero k argv h = λ p. cc
peers-IsWithin (suc n) k argv h =
    bind-IsWithin (number k argv) _ (number-IsWithin k argv (omega arith)) (λ id e.
      bind-IsWithin (argument (k + 1) argv) _ (argument-IsWithin (k + 1) argv (omega arith))
        (λ ip f.
          bind-IsWithin (number (k + 2) argv) _ (number-IsWithin (k + 2) argv (omega arith))
            (λ port g.
              bind-IsWithin (peers n (k + 3) argv) _ (peers-IsWithin n (k + 3) argv (omega arith))
                (λ rest p q. cc))))
