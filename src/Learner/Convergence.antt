-- ===== src/Learner/Convergence.antt =====
-- Learners of src/ServerThread.cpp that get the same commands in different orders.
use cs.Base.{
  ℕ, ◌+◌, ◌-◌, ◌<◌, ◌≡◌, ◌≢◌, refl, sym, ap, subst, ◌∙◌, ◌⊎◌, inl, inr, true, false, none, some,
  List, [], ◌∷◌, ltb, All, Bool-cases, if◌then◌else◌, arith,
}
use cs.Base.Int.{ℤ, pos, eqb_ℤ, eqb_ℤ_iff}
use cs.Base.Word.{IsInt}
use cs.Learner.{Learner, new, learn, on_message, serve, and_then}
use cs.Learner.Decided.{decided, AllIn, OnePerSlot, decided-same}
use cs.Learner.Progress.{learn-Taken}
use cs.Map
use cs.Map.{Map, find, find-assign, find-ext, IsSorted, assign-IsSorted}
use cs.Map.Slots.{max_int, advance, advance-advance, advance-IsInt, IsFirstFree, IsFirstFree-unique}
use cs.Messages.Command
use cs.Messages.Command.{Command}
use cs.Messages.PaxosMsg
use cs.Messages.PaxosMsg.{PaxosMsg}

-- The learn message.
abbrev pub learn_msg : Command → PaxosMsg
learn_msg cmd = PaxosMsg.set_command (PaxosMsg.of_phase (pos 5)) cmd

pub on_message-learn_msg :
    (cmd : Command) (l : Learner) → on_message (learn_msg cmd) l ≡ learn cmd l
unfolding on_message PaxosMsg.set_command PaxosMsg.of_phase PaxosMsg.get_command Command.of_fields
on_message-learn_msg cmd l = refl

abbrev pub learn_msgs : List Command → List PaxosMsg
learn_msgs [] = []
learn_msgs (cmd ∷ cmds) = learn_msg cmd ∷ learn_msgs cmds

-- slot_out stands at the first slot with no decision, and slot INT_MAX has none.
pub record IsSettled (l : Learner) : Type 0 where
  pub first : IsFirstFree l.decisions (pos 1) l.slot_out
  pub top : find max_int l.decisions ≡ none

still_found :
    (k : ℤ) (cmd : Command) (m : Map Command)
    → find k m ≢ none
    → find k (Map.assign cmd.slot cmd m) ≢ none
still_found k cmd m found = elim (Bool-cases (eqb_ℤ cmd.slot k)) [
  | inl here ↦ λ gone. some-none cmd (sym (find-assign cmd.slot k cmd m ∙ rw here refl) ∙ gone)
  | inr other ↦ λ gone. found (sym (find-assign cmd.slot k cmd m ∙ rw other refl) ∙ gone)
]
  where
    some-none : (c : Command) → some c ≢ none
    some-none c e = cc

IsFirstFree-Taken :
    (cmd : Command) (l : Learner) (n : ℕ)
    → IsFirstFree l.decisions (pos 1) l.slot_out
    → let m = Map.assign cmd.slot cmd l.decisions in
      find (advance n l.slot_out) m ≡ none
      → ((k : ℕ) → k < n → find (advance k l.slot_out) m ≢ none)
      → IsFirstFree m (pos 1) (advance n l.slot_out)
IsFirstFree-Taken cmd l n (start, at, free, before) nothing earlier =
    (start + n, along n, nothing, passed)
  where
    m : Map Command
    m = Map.assign cmd.slot cmd l.decisions

    along : (k : ℕ) → advance k l.slot_out ≡ advance (start + k) (pos 1)
    along k = ap (advance k) at ∙ advance-advance start k (pos 1)

    passed : (k : ℕ) → k < start + n → find (advance k (pos 1)) m ≢ none
    passed k h = elim (Bool-cases (ltb k start)) [
      | inl old ↦ still_found (advance k (pos 1)) cmd l.decisions (before k (ground arith))
      | inr later ↦
          let same : start + (k - start) ≡ k = ground arith in
          let place : advance (k - start) l.slot_out ≡ advance k (pos 1) =
            along (k - start) ∙ ap (λ (i : ℕ). advance i (pos 1)) same in
          subst (λ (j : ℤ). find j m ≢ none) place (earlier (k - start) (ground arith))
    ]

learn-IsSettled :
    (cmd : Command) (l : Learner)
    → IsSettled l
    → cmd.slot ≢ max_int
    → (l' : Learner) × (learn cmd l ≡ some l')
      × (l'.decisions ≡ Map.assign cmd.slot cmd l.decisions)
      × IsSettled l'
learn-IsSettled cmd l g inside =
    let (start, at, free, before) = g.first in
    let top : find max_int (Map.assign cmd.slot cmd l.decisions) ≡ none =
      find-assign cmd.slot max_int cmd l.decisions
      ∙ not_top (Bool-cases (eqb_ℤ cmd.slot max_int)) in
    let int : IsInt l.slot_out =
      subst (λ (k : ℤ). IsInt k) (sym at)
        (advance-IsInt start (pos 1) (omega arith, omega arith)) in
    let (n, e, nothing, earlier) = learn-Taken cmd l int top in
    (_, e, refl, record { first = IsFirstFree-Taken cmd l n g.first nothing earlier; top = top })
  where
    not_top :
        (eqb_ℤ cmd.slot max_int ≡ true) ⊎ (eqb_ℤ cmd.slot max_int ≡ false)
        → (if eqb_ℤ cmd.slot max_int then some cmd else find max_int l.decisions) ≡ none
    not_top (inl e) = absurd (inside ((eqb_ℤ_iff cmd.slot max_int).0 e))
    not_top (inr e) = rw e (g.top)

pub serve-learn_msg :
    (c : Command) (msgs : List PaxosMsg) (a b : Learner)
    → learn c a ≡ some b
    → serve (learn_msg c ∷ msgs) a ≡ serve msgs b
unfolding serve PaxosMsg.set_command PaxosMsg.of_phase
serve-learn_msg c msgs a b e = ap (λ r. and_then r (serve msgs)) (on_message-learn_msg c a ∙ e)

serve-IsSettled :
    (cmds : List Command) (l : Learner)
    → IsSettled l
    → All (λ c. c.slot ≢ max_int) cmds
    → (l' : Learner) × (serve (learn_msgs cmds) l ≡ some l')
      × (l'.decisions ≡ decided cmds l.decisions)
      × IsSettled l'
unfolding serve decided
serve-IsSettled [] l g inside = (l, refl, refl, g)
serve-IsSettled (cmd ∷ cmds) l g (in_range, inside) =
    let (l₁, e, d, g₁) = learn-IsSettled cmd l g in_range in
    let (l₂, e₂, d₂, g₂) = serve-IsSettled cmds l₁ g₁ inside in
    (l₂, serve-learn_msg cmd (learn_msgs cmds) l l₁ e ∙ e₂, d₂ ∙ ap (decided cmds) d, g₂)

new-IsSettled : IsSettled new
unfolding new advance find
new-IsSettled = record { first = (0, refl, refl, λ k h. absurd (omega arith)); top = refl }

same_new :
    (xs ys : List Command)
    → AllIn xs ys
    → AllIn ys xs
    → OnePerSlot xs
    → decided xs new.decisions ≡ decided ys new.decisions
unfolding new
same_new xs ys to back one = decided-same xs ys to back one

-- Replicas converge: two learners that start afresh and get the same commands, in any order and any
-- number of times, of which no two are for one slot, have the same decisions and the same slot_out at
-- the end. (No command is for slot INT_MAX.)
pub learners_converge :
    (xs ys : List Command)
    → AllIn xs ys
    → AllIn ys xs
    → OnePerSlot xs
    → All (λ c. c.slot ≢ max_int) xs
    → All (λ c. c.slot ≢ max_int) ys
    → (l : Learner) × (m : Learner) × (serve (learn_msgs xs) new ≡ some l)
      × (serve (learn_msgs ys) new ≡ some m)
      × (l.decisions ≡ m.decisions)
      × (l.slot_out ≡ m.slot_out)
learners_converge xs ys to back one xs_inside ys_inside =
    let (l, e, d, g) = serve-IsSettled xs new new-IsSettled xs_inside in
    let (m, f, c, h) = serve-IsSettled ys new new-IsSettled ys_inside in
    let same : l.decisions ≡ m.decisions = d ∙ same_new xs ys to back one ∙ sym c in
    (
      l,
      m,
      e,
      f,
      same,
      IsFirstFree-unique m.decisions (pos 1) l.slot_out m.slot_out
          (subst (λ (t : Map Command). IsFirstFree t (pos 1) l.slot_out) same g.first) h.first,
    )
