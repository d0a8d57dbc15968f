-- ===== src/Learner/Decided.antt =====
-- The decisions of a learner of src/ServerThread.cpp, by the commands that it has got.
use cs.Base.{
  ◌≡◌, ◌≢◌, refl, sym, ap, ◌∙◌, ◌⊎◌, inl, inr, some, List, [], ◌∷◌, false, In, Bool-cases,
}
use cs.Base.Int.{ℤ, eqb_ℤ, eqb_ℤ_iff}
use cs.Map
use cs.Map.{Map, find, find-assign, find-ext, IsSorted, assign-IsSorted}
use cs.Messages.Command.{Command}

-- The map after the commands.
unfoldable pub decided : List Command → Map Command → Map Command
decided [] m = m
decided (cmd ∷ cmds) m = decided cmds (Map.assign cmd.slot cmd m)

decided-IsSorted : (cmds : List Command) (m : Map Command) → IsSorted m → IsSorted (decided cmds m)
unfolding decided
decided-IsSorted [] m s = s
decided-IsSorted (cmd ∷ cmds) m s =
    decided-IsSorted cmds (Map.assign cmd.slot cmd m) (assign-IsSorted cmd.slot cmd m s)

-- What is found for a slot: one of the commands for it, or what was there.
abbrev Found : ℤ → List Command → Map Command → Map Command → Type 0
Found k cmds m result =
    ((find k result ≡ find k m) × ((c : Command) → In c cmds → c.slot ≢ k))
    ⊎ ((c : Command) × In c cmds × (c.slot ≡ k) × (find k result ≡ some c))

find-decided : (k : ℤ) (cmds : List Command) (m : Map Command) → Found k cmds m (decided cmds m)
unfolding decided
find-decided k [] m = inl (refl, λ c i. absurd i)
find-decided k (cmd ∷ cmds) m =
    let f = find-assign cmd.slot k cmd m in
    elim (find-decided k cmds (Map.assign cmd.slot cmd m)) [
      | inr (c, i, e, g) ↦ inr (c, inr i, e, g)
      | inl (g, others) ↦ elim (Bool-cases (eqb_ℤ cmd.slot k)) [
        | inl here ↦ inr (cmd, inl refl, (eqb_ℤ_iff cmd.slot k).0 here, g ∙ f ∙ rw here refl)
        | inr other ↦ inl (g ∙ f ∙ rw other refl, not_here other others)
      ]
    ]
  where
    not_here :
        eqb_ℤ cmd.slot k ≡ false
        → ((c : Command) → In c cmds → c.slot ≢ k)
        → (c : Command) → In c (cmd ∷ cmds)
        → c.slot ≢ k
    not_here other others c (inl e) h =
        cc ((eqb_ℤ_iff cmd.slot k).1 (ap (λ (d : Command). d.slot) e ∙ h))
    not_here other others c (inr i) h = others c i h

-- Every command of the one row is in the other.
abbrev pub AllIn : List Command → List Command → Type 0
AllIn xs ys = (c : Command) → In c xs → In c ys

-- The commands of a row for one slot are the same.
abbrev pub OnePerSlot : List Command → Type 0
OnePerSlot xs = (c d : Command) → In c xs → In d xs → c.slot ≡ d.slot → c ≡ d

pub decided-same :
    (xs ys : List Command)
    → AllIn xs ys
    → AllIn ys xs
    → OnePerSlot xs
    → decided xs [] ≡ decided ys []
decided-same xs ys to back one =
    find-ext (decided xs []) (decided ys []) (decided-IsSorted xs [] tt) (decided-IsSorted ys [] tt)
      (λ k. elim (find-decided k xs []) [
        | inl (f, no_x) ↦ elim (find-decided k ys []) [
          | inl (g, no_y) ↦ f ∙ sym g
          | inr (d, i, at, g) ↦ absurd (no_x d (back d i) at)
        ]
        | inr (c, i, at, f) ↦ elim (find-decided k ys []) [
          | inl (g, no_y) ↦ absurd (no_y c (to c i) at)
          | inr (d, j, here, g) ↦
              f ∙ ap (λ (e : Command). some e) (one c d i (back d j) (at ∙ sym here)) ∙ sym g
        ]
      ])
