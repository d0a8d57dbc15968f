-- ===== src/Learner.antt =====
-- The learner of src/ServerThread.cpp: LaptopFactory::Learn, and what EngineerThread does on a
-- connection of identity 3.
pub mod Progress
pub mod Gaps
pub mod Decided
pub mod Convergence
use cs.Base.{
  ℕ, zero, suc, ◌≡◌, Bool, true, false, Option, none, some, List, [], ◌∷◌, ◌++◌, if◌then◌else◌,
  length,
}
use cs.Base.Int.{ℤ, pos, ltb_ℤ, eqb_ℤ}
use cs.Base.Word.{inc}
use cs.Map
use cs.Map.{Map}
use cs.Messages.Command.{Command}
use cs.Messages.PaxosMsg
use cs.Messages.PaxosMsg.{PaxosMsg}

-- decisionMap, slot_out, and what saveCommandToFile has appended to the factory's log file: the
-- slot that it is called with, and the command.
pub record Learner : Type 0 where
  pub decisions : Map Command
  pub slot_out : ℤ
  pub log : List (ℤ × Command)

unfoldable pub new : Learner
new = record { decisions = []; slot_out = pos 1; log = [] }

abbrev pub if_found : Option Command → Option Learner → Learner → Option Learner
if_found none next l = some l
if_found (some c) next l = next

-- The loop of Learn, on fuel. The command that it writes is the one just learnt.
unfoldable pub commit : ℕ → Command → Learner → Option Learner
unfolding inc Map.find
commit zero cmd l = none
commit (suc fuel) cmd l =
    let next =
      commit fuel cmd
        (record l { slot_out = inc l.slot_out; log = l.log ++ (l.slot_out, cmd) ∷ [] }) in
    if_found (Map.find l.slot_out l.decisions) next l

-- Each round takes a slot of the map, so one more round than the map has slots is enough.
unfoldable pub learn : Command → Learner → Option Learner
unfolding commit Map.assign
learn cmd l =
    let decisions = Map.assign cmd.slot cmd l.decisions in
    commit (suc (length decisions)) cmd (record l { decisions = decisions })

-- One message of the loop, with a phase that is not negative: phase 5 is a learn message.
unfoldable pub on_message : PaxosMsg → Learner → Option Learner
unfolding learn PaxosMsg.get_command
on_message msg l =
    let learnt = learn (PaxosMsg.get_command msg) l in
    if eqb_ℤ msg.phase (pos 5) then learnt else some l

abbrev pub and_then : Option Learner → (Learner → Option Learner) → Option Learner
and_then none f = none
and_then (some l) f = f l

-- The loop over the messages that arrive, until the connection is lost.
unfoldable pub serve : List PaxosMsg → Learner → Option Learner
unfolding on_message
serve [] l = some l
serve (msg ∷ msgs) l =
    let rest = and_then (on_message msg l) (serve msgs) in
    if ltb_ℤ msg.phase (pos 0) then some l else rest
