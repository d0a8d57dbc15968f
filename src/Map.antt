-- ===== src/Map.antt =====
-- std::map<int, V>: an association list in the order of its keys, which is the order of iteration.
pub mod Rebuild
pub mod Slots
use cs.Base.{
  ◌≢◌, sym, subst, ◌∙◌, false, inl, inr, Bool-cases, ◌≡◌, refl, Option, none, some, List, [], ◌∷◌,
  if◌then◌else◌, arith,
}
use cs.Base.Int.{eqb_ℤ_refl, eq_of_parts, ℤ, ltb_ℤ, eqb_ℤ, eqb_ℤ_iff, ◌<ℤ◌}

abbrev pub Map : Type 0 → Type 0
Map V = List (ℤ × V)

none-some : {A : Type 0} (a : A) → none ≢ some a
none-some a e = cc

module _ {V : Type 0} where
  -- m.find(k)
  unfoldable pub find : ℤ → Map V → Option V
  find k [] = none
  find k ((j, v) ∷ m) = if eqb_ℤ k j then some v else find k m

  -- m[k] = v
  unfoldable pub assign : ℤ → V → Map V → Map V
  assign k v [] = (k, v) ∷ []
  assign k v ((j, w) ∷ m) =
      if ltb_ℤ k j
      then (k, v) ∷ (j, w) ∷ m
      else if eqb_ℤ k j
      then (k, v) ∷ m
      else (j, w) ∷ assign k v m

  -- m.insert({k, v}) leaves a value that is there.
  unfoldable pub insert : ℤ → V → Map V → Map V
  insert k v [] = (k, v) ∷ []
  insert k v ((j, w) ∷ m) =
      if ltb_ℤ k j
      then (k, v) ∷ (j, w) ∷ m
      else if eqb_ℤ k j
      then (j, w) ∷ m
      else (j, w) ∷ insert k v m

  -- m.erase(k)
  unfoldable pub erase : ℤ → Map V → Map V
  erase k [] = []
  erase k ((j, w) ∷ m) = if eqb_ℤ k j then m else (j, w) ∷ erase k m

  -- Every key of the map lies above `k`, in order.
  abbrev pub Above : ℤ → Map V → Type 0
  Above k [] = Unit {0}
  Above k ((j, w) ∷ m) = (k <ℤ j) × Above j m

  abbrev pub IsSorted : Map V → Type 0
  IsSorted [] = Unit {0}
  IsSorted ((j, w) ∷ m) = Above j m

  pub Above-IsSorted : (i : ℤ) (m : Map V) → Above i m → IsSorted m
  Above-IsSorted i [] a = tt
  Above-IsSorted i ((j, w) ∷ m) a = a.1

  -- The value that is there, or else `v`.
  abbrev pub old_or : V → Option V → V
  old_or v none = v
  old_or v (some w) = w

  Above-mono : (i j : ℤ) (m : Map V) → i <ℤ j → Above j m → Above i m
  Above-mono i j [] h a = tt
  Above-mono i j ((k, w) ∷ m) h a = (omega arith, a.1)

  pub find-Above : (k : ℤ) (m : Map V) → Above k m → find k m ≡ none
  unfolding find
  find-Above k [] a = refl
  find-Above k ((j, w) ∷ m) a = ground (arith, find-Above k m (Above-mono k j m a.0 a.1))

  assign-Above : (i k : ℤ) (v : V) (m : Map V) → i <ℤ k → Above i m → Above i (assign k v m)
  unfolding assign
  assign-Above i k v [] h a = (h, tt)
  assign-Above i k v ((j, w) ∷ m) h a = ground (arith, assign-Above j k v m)

  pub assign-IsSorted : (k : ℤ) (v : V) (m : Map V) → IsSorted m → IsSorted (assign k v m)
  unfolding assign
  assign-IsSorted k v [] s = tt
  assign-IsSorted k v ((j, w) ∷ m) s = ground (arith, assign-Above j k v m)

  insert-Above : (i k : ℤ) (v : V) (m : Map V) → i <ℤ k → Above i m → Above i (insert k v m)
  unfolding insert
  insert-Above i k v [] h a = (h, tt)
  insert-Above i k v ((j, w) ∷ m) h a = ground (arith, insert-Above j k v m)

  pub insert-IsSorted : (k : ℤ) (v : V) (m : Map V) → IsSorted m → IsSorted (insert k v m)
  unfolding insert
  insert-IsSorted k v [] s = tt
  insert-IsSorted k v ((j, w) ∷ m) s = ground (arith, insert-Above j k v m)

  pub find-assign :
      (k j : ℤ) (v : V) (m : Map V)
      → find j (assign k v m) ≡ (if eqb_ℤ k j then some v else find j m)
  unfolding find assign
  find-assign k j v [] = ground arith
  find-assign k j v ((i, w) ∷ m) = ground (arith, find-assign k j v m)

  pub find-insert :
      (k j : ℤ) (v : V) (m : Map V)
      → IsSorted m
      → find j (insert k v m) ≡ (if eqb_ℤ k j then some (old_or v (find k m)) else find j m)
  unfolding find insert
  find-insert k j v [] s = ground arith
  find-insert k j v ((i, w) ∷ m) s = ground (
    arith,
    find-insert k j v m (Above-IsSorted i m s),
    find-Above i m s,
    find-Above k m,
    Above-mono k i m,
  )

  pub find-erase :
      (k j : ℤ) (m : Map V)
      → IsSorted m
      → find j (erase k m) ≡ (if eqb_ℤ k j then none else find j m)
  unfolding find erase
  find-erase k j [] s = ground arith
  find-erase k j ((i, w) ∷ m) s = ground (
    arith,
    find-erase k j m (Above-IsSorted i m s),
    find-Above i m s,
    eqb_ℤ_iff k i,
    eqb_ℤ_iff k j,
  )

  erase-Above : (i k : ℤ) (m : Map V) → Above i m → Above i (erase k m)
  unfolding erase
  erase-Above i k [] a = tt
  erase-Above i k ((j, w) ∷ m) a = ground (arith, erase-Above j k m, Above-mono i j m)

  pub erase-IsSorted : (k : ℤ) (m : Map V) → IsSorted m → IsSorted (erase k m)
  unfolding erase
  erase-IsSorted k [] s = tt
  erase-IsSorted k ((j, w) ∷ m) s = ground (arith, erase-Above j k m, Above-IsSorted j m)

  find-here : (k : ℤ) (v : V) (m : Map V) → find k ((k, v) ∷ m) ≡ some v
  unfolding find
  find-here k v m = rw (eqb_ℤ_refl k) refl

  find-behind : (k j : ℤ) (v : V) (m : Map V) → eqb_ℤ k j ≡ false → find k ((j, v) ∷ m) ≡ find k m
  unfolding find
  find-behind k j v m other = rw other refl

  -- Maps with one first key: what they tell behind it.
  find-tails :
      (j : ℤ) (w v : V) (m n : Map V)
      → Above j m
      → Above j n
      → ((k : ℤ) → find k ((j, w) ∷ m) ≡ find k ((j, v) ∷ n))
      → (k : ℤ) → find k m ≡ find k n
  find-tails j w v m n s t h k = elim (Bool-cases (eqb_ℤ k j)) [
    | inl here ↦
        let e : j ≡ k = sym ((eqb_ℤ_iff k j).0 here) in
        find-Above k m (subst (λ (i : ℤ). Above i m) e s)
        ∙ sym (find-Above k n (subst (λ (i : ℤ). Above i n) e t))
    | inr other ↦ sym (find-behind k j w m other) ∙ h k ∙ find-behind k j v n other
  ]

  -- Two maps in order that tell the same are the same.
  pub find-ext : (m n : Map V) → IsSorted m → IsSorted n → ((k : ℤ) → find k m ≡ find k n) → m ≡ n
  find-ext [] [] s t h = refl
  find-ext [] ((i, v) ∷ n) s t h =
      let gone : find i [] ≡ none = find-Above i [] tt in
      absurd (none-some v (sym gone ∙ h i ∙ find-here i v n))
  find-ext ((j, w) ∷ m) [] s t h =
      let gone : find j [] ≡ none = find-Above j [] tt in
      absurd (none-some w (sym gone ∙ sym (h j) ∙ find-here j w m))
  find-ext ((j, w) ∷ m) ((i, v) ∷ n) s t h = elim (Bool-cases (ltb_ℤ j i)) [
    | inl less ↦ absurd (
        none-some w
          (sym (find-Above j ((i, v) ∷ n) (ground arith, t)) ∙ sym (h j) ∙ find-here j w m))
    | inr not_less ↦ elim (Bool-cases (ltb_ℤ i j)) [
      | inl less ↦
          absurd (
            none-some v (sym (find-Above i ((j, w) ∷ m) (ground arith, s)) ∙ h i ∙ find-here i v n))
      | inr not_more ↦
          let e : i ≡ j = eq_of_parts i j (ground arith) in
          let t₁ : Above j n = subst (λ (k : ℤ). Above k n) e t in
          let h₁ : (k : ℤ) → find k ((j, w) ∷ m) ≡ find k ((j, v) ∷ n) =
            subst (λ (i : ℤ). (k : ℤ) → find k ((j, w) ∷ m) ≡ find k ((i, v) ∷ n)) e h in
          let first : some w ≡ some v = sym (find-here j w m) ∙ h₁ j ∙ find-here j v n in
          let rest =
            find-ext m n (Above-IsSorted j m s) (Above-IsSorted j n t₁)
              (find-tails j w v m n s t₁ h₁) in
          cc
    ]
  ]
