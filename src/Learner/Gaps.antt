-- ===== src/Learner/Gaps.antt =====
-- Commands that arrive in the order of their slots, and commands that do not.
use cs.Base.{
  ℕ, zero, suc, ◌≡◌, ◌≢◌, refl, ◌∙◌, Option, none, some, List, [], ◌∷◌, ◌++◌, length, arith,
  Bool-cases, inl, inr,
}
use cs.Base.Int.{ℤ, ltb_ℤ, eqb_ℤ, eqb_ℤ_iff}
use cs.Base.Word.{inc, IsInt}
use cs.Learner.{Learner, commit, learn}
use cs.Learner.Progress.{entries, Taken, learn-Taken}
use cs.Map.Slots.{max_int, advance}
use cs.Map
use cs.Map.{Map, find, find-assign}
use cs.Messages.Command.{Command}

length-assign :
    (k : ℤ) (c : Command) (m : Map Command) → (n : ℕ) × (length (Map.assign k c m) ≡ suc n)
unfolding Map.assign
length-assign k c [] = (0, refl)
length-assign k c ((j, d) ∷ m) =
    let (n, e) = length-assign k c m in
    elim (Bool-cases (ltb_ℤ k j)) [
      | inl before ↦ (suc (length m), rw before)
      | inr not_before ↦ elim (Bool-cases (eqb_ℤ k j)) [
        | inl here ↦ (length m, rw (not_before, here))
        | inr behind ↦ (length (Map.assign k c m), rw (not_before, behind))
      ]
    ]

find-assign_here :
    (cmd : Command) (l : Learner)
    → cmd.slot ≡ l.slot_out
    → find l.slot_out (Map.assign cmd.slot cmd l.decisions) ≡ some cmd
find-assign_here cmd l here =
    find-assign cmd.slot l.slot_out cmd l.decisions ∙ rw ((eqb_ℤ_iff cmd.slot l.slot_out).1 here)

find-assign_other :
    (cmd : Command) (m : Map Command) (k : ℤ)
    → k ≢ cmd.slot
    → find k (Map.assign cmd.slot cmd m) ≡ find k m
find-assign_other cmd m k other = ground (arith, find-assign cmd.slot k cmd m, eqb_ℤ_iff cmd.slot k)

commit-found :
    (fuel : ℕ) (cmd c : Command) (l : Learner)
    → find l.slot_out l.decisions ≡ some c
    → commit (suc fuel) cmd l
      ≡ commit fuel cmd
          (record l { slot_out = inc l.slot_out; log = l.log ++ (l.slot_out, cmd) ∷ [] })
unfolding commit
commit-found fuel cmd c l e = rw e

commit-free :
    (fuel : ℕ) (cmd : Command) (l : Learner)
    → find l.slot_out l.decisions ≡ none
    → commit (suc fuel) cmd l ≡ some l
unfolding commit
commit-free fuel cmd l e = rw e

-- A command for the next slot, with no decision for the slot behind it, is written once, and
-- slot_out moves on by one.
pub learn_next :
    (cmd : Command) (l : Learner)
    → cmd.slot ≡ l.slot_out
    → inc l.slot_out ≢ l.slot_out
    → find (inc l.slot_out) l.decisions ≡ none
    → learn cmd l
      ≡ some (record {
        decisions = Map.assign cmd.slot cmd l.decisions;
        slot_out = inc l.slot_out;
        log = l.log ++ (l.slot_out, cmd) ∷ [];
      })
unfolding learn
learn_next cmd l here moves free =
    let decisions = Map.assign cmd.slot cmd l.decisions in
    let (k, e) = length-assign cmd.slot cmd l.decisions in
    commit-found (length decisions) cmd cmd (record l { decisions = decisions })
      (find-assign_here cmd l here)
    ∙ rw e (
        commit-free k cmd
          (record {
            decisions = decisions;
            slot_out = inc l.slot_out;
            log = l.log ++ (l.slot_out, cmd) ∷ [];
          })
          (find-assign_other cmd l.decisions (inc l.slot_out) (λ q. moves (q ∙ here)) ∙ free))

-- The lines of a run of at least two rounds.
two_lines :
    (cmd d : Command) (l : Learner) (result : Option Learner)
    → find l.slot_out l.decisions ≢ none
    → find (inc l.slot_out) l.decisions ≡ some d
    → Taken cmd l result
    → (later : Learner) × (rest : List (ℤ × Command)) × (result ≡ some later)
      × (later.decisions ≡ l.decisions)
      × (later.log ≡ l.log ++ ((l.slot_out, cmd) ∷ (inc l.slot_out, cmd) ∷ rest))
unfolding advance entries
two_lines cmd d l result here next (zero, p, q, r) = absurd (here q)
two_lines cmd d l result here next (suc zero, p, q, r) = cc
two_lines cmd d l result here next (suc (suc n), p, q, r) =
    (_, entries n (inc (inc l.slot_out)) cmd, p, refl, refl)

-- A gap that is closed: slot_out was free while the slot behind it had the decision `d`. When the
-- command for slot_out arrives, the line written for the slot behind it has that command, not `d`,
-- which the map still holds there.
pub learn_closes_gap :
    (cmd d : Command) (l : Learner)
    → IsInt l.slot_out
    → find max_int (Map.assign cmd.slot cmd l.decisions) ≡ none
    → cmd.slot ≡ l.slot_out
    → inc l.slot_out ≢ l.slot_out
    → find (inc l.slot_out) l.decisions ≡ some d
    → (later : Learner) × (rest : List (ℤ × Command)) × (learn cmd l ≡ some later)
      × (later.log ≡ l.log ++ ((l.slot_out, cmd) ∷ (inc l.slot_out, cmd) ∷ rest))
      × (find (inc l.slot_out) later.decisions ≡ some d)
learn_closes_gap cmd d l i top here moves waiting =
    let decisions = Map.assign cmd.slot cmd l.decisions in
    let kept : find (inc l.slot_out) decisions ≡ some d =
      find-assign_other cmd l.decisions (inc l.slot_out) (λ q. moves (q ∙ here)) ∙ waiting in
    let (later, rest, e, same, lines) =
      two_lines cmd d (record l { decisions = decisions }) (learn cmd l)
        (λ f. cc (find-assign_here cmd l here)) kept (learn-Taken cmd l i top) in
    (later, rest, e, lines, rw same kept)
