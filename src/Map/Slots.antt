-- ===== src/Map/Slots.antt =====
-- Slots, counted up from one on: how many of them a map can have.
use cs.Base.{
  none, sym, ap, ◌∙◌, ltb, Bool-cases, inl, inr, ℕ, zero, suc, ◌+◌, ◌%◌, ◌≤◌, ◌<◌, ◌^◌, ◌-◌, ◌≡◌,
  ◌≢◌, some, [], ◌∷◌, if◌then◌else◌, length, arith,
}
use cs.Base.Int.{ℤ, pos, negsuc, leb_ℤ, ◌<ℤ◌, eqb_ℤ_iff}
use cs.Base.Word.{inc, IsInt, to_u32, u32_mod, of_u32-IsInt}
use cs.Map.{Map, find}

-- INT_MAX
abbrev pub max_int : ℤ
max_int = pos (2 ^ 31 - 1)

-- How many keys are at least `k`.
unfoldable pub slots_from : {V : Type 0} → ℤ → Map V → ℕ
slots_from k [] = 0
slots_from k ((j, c) ∷ m) = (if leb_ℤ k j then 1 else 0) + slots_from k m

pub slots_from-le : {V : Type 0} (k : ℤ) (m : Map V) → slots_from k m ≤ length m
unfolding slots_from
slots_from-le k [] = omega arith
slots_from-le k ((j, c) ∷ m) = ground (arith, slots_from-le k m)

pub slots_from_mono : {V : Type 0} (i k : ℤ) (m : Map V) → i <ℤ k → slots_from k m ≤ slots_from i m
unfolding slots_from
slots_from_mono i k [] h = omega arith
slots_from_mono i k ((j, c) ∷ m) h = ground (arith, slots_from_mono i k m h)

pub slots_from-found :
    {V : Type 0} (i k : ℤ) (m : Map V) (c : V)
    → find i m ≡ some c
    → i <ℤ k
    → slots_from k m < slots_from i m
unfolding slots_from find
slots_from-found i k [] c e h = cc
slots_from-found i k ((j, d) ∷ m) c e h =
    ground (arith, slots_from-found i k m c, slots_from_mono i k m h, eqb_ℤ_iff i j)

-- A slot, counted up `n` times.
unfoldable pub advance : ℕ → ℤ → ℤ
advance zero k = k
advance (suc n) k = advance n (inc k)

pub inc-IsInt : (x : ℤ) → IsInt (inc x)
unfolding inc
inc-IsInt x = of_u32-IsInt ((to_u32 x + 1) % u32_mod) (omega arith)

pub inc-lt : (x : ℤ) → IsInt x → x ≢ max_int → x <ℤ inc x
unfolding inc
inc-lt (pos n) h ne = ground arith
inc-lt (negsuc n) h ne = ground arith

-- `slot` is the first one from `start` on that the map does not have.
abbrev pub IsFirstFree : {V : Type 0} → Map V → ℤ → ℤ → Type 0
IsFirstFree m start slot =
    (n : ℕ) × (slot ≡ advance n start)
    × (find slot m ≡ none)
    × ((k : ℕ) → k < n → find (advance k start) m ≢ none)

pub IsFirstFree-unique :
    {V : Type 0} (m : Map V) (start a b : ℤ) → IsFirstFree m start a → IsFirstFree m start b → a ≡ b
IsFirstFree-unique m start a b (i, at_a, no_a, before_a) (j, at_b, no_b, before_b) =
    elim (Bool-cases (ltb i j)) [
      | inl less ↦ absurd (before_b i (ground arith) (ap (λ (k : ℤ). find k m) (sym at_a) ∙ no_a))
      | inr not_less ↦ elim (Bool-cases (ltb j i)) [
        | inl less ↦ absurd (before_a j (ground arith) (ap (λ (k : ℤ). find k m) (sym at_b) ∙ no_b))
        | inr not_more ↦
            let same : i ≡ j = ground arith in
            at_a ∙ ap (λ (n : ℕ). advance n start) same ∙ sym at_b
      ]
    ]

pub advance-advance : (m n : ℕ) (k : ℤ) → advance n (advance m k) ≡ advance (m + n) k
unfolding advance
advance-advance zero n k = let e : n ≡ 0 + n = omega arith in ap (λ (i : ℕ). advance i k) e
advance-advance (suc m) n k =
    let e : suc (m + n) ≡ suc m + n = omega arith in
    advance-advance m n (inc k) ∙ ap (λ (i : ℕ). advance i k) e

pub advance-IsInt : (n : ℕ) (k : ℤ) → IsInt k → IsInt (advance n k)
unfolding advance
advance-IsInt zero k h = h
advance-IsInt (suc n) k h = advance-IsInt n (inc k) (inc-IsInt k)
