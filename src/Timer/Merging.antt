-- ===== src/Timer/Merging.antt =====
-- Timers that are merged, against one timer for all operations (src/ClientTimer.cpp).
use cs.Base.{
  ℕ, ◌+◌, ◌%◌, ◌<◌, ◌≡◌, refl, sym, ap, ◌∙◌, true, false, List, [], ◌∷◌, ◌++◌, length, inl, inr,
  Bool-cases, arith,
}
use cs.Base.Int.{ℤ}
use cs.Base.Word.{inc, to_u32, of_u32, u32_mod}
use cs.Timer.{
  Durations, ClientTimer, plus_int, lower, higher, new, start, stop, end_and_merge, total, merge,
  measure, merge_all,
}

-- Durations are ordered, up to equals: no reading gives a duration that is not a number.
pub record IsOrdered {D T : Type 0} (d : Durations D T) : Type 0 where
  pub irrefl : (a : D) → d.less a a ≡ false
  pub trans : (a b c : D) → d.less a b ≡ true → d.less b c ≡ true → d.less a c ≡ true
  pub not_trans : (a b c : D) → d.less a b ≡ false → d.less b c ≡ false → d.less a c ≡ false

-- A count, as an `int` holds it.
abbrev pub counted : ℕ → ℤ
unfolding of_u32
counted n = of_u32 (n % u32_mod)

to_u32-of_u32 : (w : ℕ) → w < u32_mod → to_u32 (of_u32 w) ≡ w
unfolding to_u32 of_u32
to_u32-of_u32 w h = ground arith

inc-counted : (n : ℕ) → inc (counted n) ≡ counted (n + 1)
unfolding inc
inc-counted n = ap of_u32 (rw (to_u32-of_u32 (n % u32_mod) (omega arith)) (omega arith))

plus_int-counted : (m n : ℕ) → plus_int (counted m) (counted n) ≡ counted (m + n)
unfolding plus_int
plus_int-counted m n = ap of_u32 (
    rw (to_u32-of_u32 (m % u32_mod) (omega arith), to_u32-of_u32 (n % u32_mod) (omega arith))
      (omega arith))

-- The three fields that do not depend on how a sum is rounded.
pub record Agrees {D T : Type 0} (t u : ClientTimer D T) : Type 0 where
  pub max : t.max ≡ u.max
  pub min : t.min ≡ u.min
  pub op_count : t.op_count ≡ u.op_count

Agrees-trans : {D T : Type 0} (t u v : ClientTimer D T) → Agrees t u → Agrees u v → Agrees t v
Agrees-trans t u v f g = record {
  max = f.max ∙ g.max;
  min = f.min ∙ g.min;
  op_count = f.op_count ∙ g.op_count;
}

module _ {D T : Type 0} (d : Durations D T) where
  lower_assoc : IsOrdered d → (a b c : D) → lower d (lower d a b) c ≡ lower d a (lower d b c)
  lower_assoc o a b c = elim (Bool-cases (d.less c b)) [
    | inl cb ↦ elim (Bool-cases (d.less b a)) [
      | inl ba ↦ rw (cb, ba, cb, o.trans c b a cb ba) refl
      | inr ba ↦ rw (cb, ba) refl
    ]
    | inr cb ↦ elim (Bool-cases (d.less b a)) [
      | inl ba ↦ rw (cb, ba, cb) refl
      | inr ba ↦ rw (cb, ba, o.not_trans c b a cb ba) refl
    ]
  ]

  higher_assoc : IsOrdered d → (a b c : D) → higher d (higher d a b) c ≡ higher d a (higher d b c)
  higher_assoc o a b c = elim (Bool-cases (d.less b c)) [
    | inl bc ↦ elim (Bool-cases (d.less a b)) [
      | inl ab ↦ rw (bc, ab, bc, o.trans a b c ab bc) refl
      | inr ab ↦ rw (bc, ab) refl
    ]
    | inr bc ↦ elim (Bool-cases (d.less a b)) [
      | inl ab ↦ rw (bc, ab, bc) refl
      | inr ab ↦ rw (bc, ab, o.not_trans a b c ab bc) refl
    ]
  ]

  -- A timer since its constructor: its bounds, and how many operations it has counted.
  pub record HasCounted (n : ℕ) (t : ClientTimer D T) : Type 0 where
    pub below : d.less d.endless t.min ≡ false
    pub above : d.less t.max d.nothing ≡ false
    pub count : t.op_count ≡ counted n

  lower_below :
      IsOrdered d → (a b : D) → d.less d.endless a ≡ false → d.less d.endless (lower d a b) ≡ false
  lower_below o a b h = elim (Bool-cases (d.less b a)) [
    | inr keeps ↦ rw keeps h
    | inl ba ↦ elim (Bool-cases (d.less d.endless b)) [
      | inr fine ↦ rw ba fine
      | inl eb ↦ cc (o.trans d.endless b a eb ba)
    ]
  ]

  higher_above :
      IsOrdered d → (a b : D) → d.less a d.nothing ≡ false → d.less (higher d a b) d.nothing ≡ false
  higher_above o a b h = elim (Bool-cases (d.less a b)) [
    | inr keeps ↦ rw keeps h
    | inl ab ↦ elim (Bool-cases (d.less b d.nothing)) [
      | inr fine ↦ rw ab fine
      | inl bn ↦ cc (o.trans a b d.nothing ab bn)
    ]
  ]

  merge-HasCounted :
      IsOrdered d
      → (m n : ℕ) (t u : ClientTimer D T) → HasCounted m t
      → u.op_count ≡ counted n
      → HasCounted (m + n) (merge d u t)
  unfolding merge
  merge-HasCounted o m n t u h e = record {
    below = lower_below o t.min u.min h.below;
    above = higher_above o t.max u.max h.above;
    count = rw (h.count, e) (plus_int-counted m n);
  }

  measure-Agrees :
      (times : List (T × T)) (t u : ClientTimer D T)
      → Agrees t u
      → Agrees (measure d times t) (measure d times u)
  unfolding measure start end_and_merge stop
  measure-Agrees [] t u f = f
  measure-Agrees ((before, after) ∷ times) t u f =
      measure-Agrees times _ _
        (record { max = rw f.max refl; min = rw f.min refl; op_count = ap inc f.op_count })

  -- `t` and `u`, which has counted `m` operations, together stand for `v`.
  record IsSplit (n m : ℕ) (t u v : ClientTimer D T) : Type 0 where
    max : v.max ≡ higher d t.max u.max
    min : v.min ≡ lower d t.min u.min
    left : t.op_count ≡ counted n
    right : u.op_count ≡ counted m
    op_count : v.op_count ≡ counted (n + m)

  merge-measure :
      IsOrdered d
      → (times : List (T × T)) (n m : ℕ) (t u v : ClientTimer D T) → IsSplit n m t u v
      → Agrees (merge d (measure d times u) t) (measure d times v)
  unfolding measure merge start end_and_merge stop
  merge-measure o [] n m t u v h = record {
    max = sym h.max;
    min = sym h.min;
    op_count = rw (h.left, h.right) (plus_int-counted n m) ∙ sym h.op_count;
  }
  merge-measure o ((before, after) ∷ times) n m t u v h =
      let x = d.between before after in
      merge-measure o times n (m + 1) t _ _ (record {
        max = rw h.max (higher_assoc o t.max u.max x);
        min = rw h.min (lower_assoc o t.min u.min x);
        left = h.left;
        right = ap inc h.right ∙ inc-counted m;
        op_count = ap inc h.op_count ∙ inc-counted (n + m) ∙ ap counted (omega arith);
      })

  -- What a customer's timer had in its memory, and the readings of its operations.
  abbrev pub Row : Type 0
  Row = T × D × List (T × T)

  abbrev pub timers_of : List Row → List (ClientTimer D T)
  timers_of [] = []
  timers_of ((s, e, times) ∷ rows) = measure d times (new d s e) ∷ timers_of rows

  abbrev pub all_times : List Row → List (T × T)
  all_times [] = []
  all_times ((s, e, times) ∷ rows) = times ++ all_times rows

  count-measure :
      (times : List (T × T)) (m : ℕ) (u : ClientTimer D T)
      → u.op_count ≡ counted m
      → (measure d times u).op_count ≡ counted (m + length times)
  unfolding measure start end_and_merge stop
  count-measure [] m u e = e ∙ ap counted (omega arith)
  count-measure ((before, after) ∷ times) m u e =
      count-measure times (m + 1) _ (ap inc e ∙ inc-counted m) ∙ ap counted (omega arith)

  new-IsSplit :
      (n : ℕ) (t : ClientTimer D T) (s : T) (e : D) → HasCounted n t → IsSplit n 0 t (new d s e) t
  unfolding new of_u32
  new-IsSplit n t s e h = record {
    max = rw h.above refl;
    min = rw h.below refl;
    left = h.count;
    right = refl;
    op_count = h.count ∙ ap counted (omega arith);
  }

  measure-append :
      (xs ys : List (T × T)) (t : ClientTimer D T)
      → measure d (xs ++ ys) t ≡ measure d ys (measure d xs t)
  unfolding measure
  measure-append [] ys t = refl
  measure-append ((before, after) ∷ xs) ys t = measure-append xs ys _

  count-new :
      (times : List (T × T)) (s : T) (e : D)
      → (measure d times (new d s e)).op_count ≡ counted (length times)
  unfolding new of_u32
  count-new times s e = count-measure times 0 (new d s e) refl ∙ ap counted (omega arith)

  merge_all-Agrees :
      IsOrdered d
      → (rows : List Row) (n : ℕ) (t u : ClientTimer D T) → HasCounted n t
      → Agrees t u
      → Agrees (merge_all d (timers_of rows) t) (measure d (all_times rows) u)
  unfolding merge_all measure
  merge_all-Agrees o [] n t u h f = f
  merge_all-Agrees o ((s, e, times) ∷ rows) n t u h f =
      let timer = measure d times (new d s e) in
      rw (measure-append times (all_times rows) u) (
        merge_all-Agrees o rows (n + length times) (merge d timer t) (measure d times u)
          (merge-HasCounted o n (length times) t timer h (count-new times s e))
          (Agrees-trans (merge d timer t) (measure d times t) (measure d times u)
            (merge-measure o times n 0 t (new d s e) t (new-IsSplit n t s e h))
            (measure-Agrees times t u f)))

  -- The timer of main: for durations in order, its longest and shortest time and its count, as an
  -- `int` holds it, are those of one timer that all operations of all customers were measured with.
  pub total-measure :
      IsOrdered d
      → (rows : List Row) (before after s s' : T) (e e' : D)
      → Agrees
          (total d before after (timers_of rows) (new d s e))
          (measure d (all_times rows) (new d s' e'))
  unfolding total start stop new of_u32
  total-measure o rows before after s s' e e' =
      merge_all-Agrees o rows 0 _ _
        (record { below = o.irrefl d.endless; above = o.irrefl d.nothing; count = refl })
        (record { max = refl; min = refl; op_count = refl })
