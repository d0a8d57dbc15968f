-- ===== src/Learner/Progress.antt =====
-- How far Learn goes: the slots that it takes.
use cs.Base.{
  ℕ, zero, suc, ◌<◌, ◌≡◌, ◌≢◌, Option, none, some, List, [], ◌∷◌, ◌++◌, length, arith, append_assoc,
  append-nil, Option-cases, inl, inr,
}
use cs.Base.Int.{ℤ}
use cs.Base.Word.{inc, IsInt}
use cs.Learner.{Learner, commit, learn}
use cs.Map
use cs.Map.{Map, find}
use cs.Map.Slots.{max_int, slots_from, slots_from-le, slots_from-found, advance, inc-IsInt, inc-lt}
use cs.Messages.Command.{Command}

-- What the loop writes in `n` rounds.
unfoldable pub entries : ℕ → ℤ → Command → List (ℤ × Command)
entries zero k cmd = []
entries (suc n) k cmd = (k, cmd) ∷ entries n (inc k) cmd

-- What a row of rounds does, for the round that finds no decision.
abbrev pub Taken : Command → Learner → Option Learner → Type 0
Taken cmd l result =
    (n : ℕ) × (result
      ≡ some
          (record l { slot_out = advance n l.slot_out; log = l.log ++ entries n l.slot_out cmd }))
    × (find (advance n l.slot_out) l.decisions ≡ none)
    × ((k : ℕ) → k < n → find (advance k l.slot_out) l.decisions ≢ none)

Taken-one :
    (cmd c : Command) (l : Learner) (result : Option Learner)
    → find l.slot_out l.decisions ≡ some c
    → Taken cmd
        (record l { slot_out = inc l.slot_out; log = l.log ++ (l.slot_out, cmd) ∷ [] })
        result
    → Taken cmd l result
unfolding advance entries
Taken-one cmd c l result e (n, p, q, r) = (
  suc n,
  rw (← append_assoc l.log ((l.slot_out, cmd) ∷ []) (entries n (inc l.slot_out) cmd)) p,
  q,
  earlier,
)
  where
    earlier : (k : ℕ) → k < suc n → find (advance k l.slot_out) l.decisions ≢ none
    earlier zero h = λ f. cc
    earlier (suc k) h = r k (omega arith)

commit-Taken :
    (fuel : ℕ) (cmd : Command) (l : Learner)
    → IsInt l.slot_out
    → find max_int l.decisions ≡ none
    → slots_from l.slot_out l.decisions < fuel
    → Taken cmd l (commit fuel cmd l)
unfolding commit
commit-Taken zero cmd l i top h = absurd (omega arith)
commit-Taken (suc fuel) cmd l i top h = elim (Option-cases (find l.slot_out l.decisions)) [
  | inl e ↦ (
    0,
    rw e (unfold advance entries in rw (append-nil l.log)),
    unfold advance in e,
    λ k lt. absurd (omega arith),
  )
  | inr (c, e) ↦ rw e (
      Taken-one cmd c l _ e (
        commit-Taken fuel cmd _ (inc-IsInt l.slot_out) top (
          omega (
            arith,
            slots_from-found l.slot_out (inc l.slot_out) l.decisions c e
                (inc-lt l.slot_out i (λ (q : l.slot_out ≡ max_int). cc)),
          ))))
]

-- Learn ends, with the command in its slot. It takes `n` slots from slot_out on, each of which has
-- a decision, up to the first that has none; it writes a line for each of them, all with the
-- command that was just learnt. (Slot INT_MAX has no decision, so that slot_out does not overflow.)
pub learn-Taken :
    (cmd : Command) (l : Learner)
    → IsInt l.slot_out
    → find max_int (Map.assign cmd.slot cmd l.decisions) ≡ none
    → Taken cmd (record l { decisions = Map.assign cmd.slot cmd l.decisions }) (learn cmd l)
unfolding learn
learn-Taken cmd l i top =
    let decisions = Map.assign cmd.slot cmd l.decisions in
    commit-Taken (suc (length decisions)) cmd (record l { decisions = decisions }) i top
      (omega (arith, slots_from-le l.slot_out decisions))
