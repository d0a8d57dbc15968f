-- ===== src/Map/Rebuild.antt =====
-- A map built again from its entries, one assignment after the other.
use cs.Base.{◌≡◌, refl, [], ◌∷◌, ◌++◌, arith, append_assoc, ◌∙◌}
use cs.Base.Int.{ℤ, ◌<ℤ◌}
use cs.Map
use cs.Map.{Map, IsSorted, Above}

module _ {V : Type 0} where
  -- The keys of `m`, in order, assigned to `acc`.
  unfoldable pub assign_all : Map V → Map V → Map V
  assign_all [] acc = acc
  assign_all ((id, info) ∷ m) acc = assign_all m (Map.assign id info acc)

  -- Every key of the map lies below `k`.
  abbrev Below : ℤ → Map V → Type 0
  Below k [] = Unit {0}
  Below k ((j, w) ∷ m) = (j <ℤ k) × Below k m

  assign-last : (k : ℤ) (v : V) (m : Map V) → Below k m → Map.assign k v m ≡ m ++ (k, v) ∷ []
  unfolding Map.assign
  assign-last k v [] b = refl
  assign-last k v ((j, w) ∷ m) b = ground (arith, assign-last k v m b.1)

  Below-last : (i k : ℤ) (v : V) (m : Map V) → k <ℤ i → Below k m → Below i (m ++ (k, v) ∷ [])
  Below-last i k v [] h b = (h, tt)
  Below-last i k v ((j, w) ∷ m) h b = (omega arith, Below-last i k v m h b.1)

  assign_all-append :
      (m acc : Map V) (k : ℤ) (v : V)
      → Below k acc
      → Above k m
      → assign_all ((k, v) ∷ m) acc ≡ acc ++ (k, v) ∷ m
  unfolding assign_all
  assign_all-append [] acc k v b a = assign-last k v acc b
  assign_all-append ((j, w) ∷ m) acc k v b a = rw (assign-last k v acc b) (
      assign_all-append m (acc ++ (k, v) ∷ []) j w (Below-last j k v acc a.0 b) a.1
      ∙ append_assoc acc ((k, v) ∷ []) ((j, w) ∷ m))

  pub assign_all-nil : (m : Map V) → IsSorted m → assign_all m [] ≡ m
  unfolding assign_all
  assign_all-nil [] s = refl
  assign_all-nil ((k, v) ∷ m) s = assign_all-append m [] k v tt s
