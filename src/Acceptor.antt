-- ===== src/Acceptor.antt =====
-- The acceptor of src/ServerThread.cpp: what EngineerThread does on a connection of identity 2.
pub mod Promises
pub mod History
use cs.Base.{◌≡◌, Bool, true, false, Option, none, some, List, [], ◌∷◌, if◌then◌else◌, not}
use cs.Base.Int.{ℤ, pos, minus_one, ltb_ℤ, eqb_ℤ}
use cs.Messages.Command
use cs.Messages.Command.{Command}
use cs.Messages.PaxosMsg
use cs.Messages.PaxosMsg.{PaxosMsg}

-- promisedProposalNumber, acceptedProposalNumber and acceptedValue of the LaptopFactory.
pub record Acceptor : Type 0 where
  pub promised : ℤ
  pub accepted : ℤ
  pub value : Command

-- `junk` is what the memory of the slot of `acceptedValue` held.
unfoldable pub new : ℤ → Acceptor
unfolding Command.new
new junk = record { promised = minus_one; accepted = minus_one; value = Command.new junk }

-- The p1b message of an acceptor that promises.
unfoldable pub promise : Acceptor → PaxosMsg
unfolding PaxosMsg.of_phase PaxosMsg.set_agree PaxosMsg.set_accepted_proposal PaxosMsg.set_command
promise a =
    let agreed = PaxosMsg.set_agree (PaxosMsg.of_phase (pos 2)) (pos 1) in
    if not (eqb_ℤ a.accepted minus_one)
    then PaxosMsg.set_command (PaxosMsg.set_accepted_proposal agreed a.accepted) a.value
    else agreed

-- The p1b message of an acceptor that does not.
unfoldable pub refusal : Acceptor → PaxosMsg
unfolding PaxosMsg.of_phase PaxosMsg.set_agree PaxosMsg.set_proposal_number
refusal a =
    PaxosMsg.set_proposal_number (PaxosMsg.set_agree (PaxosMsg.of_phase (pos 2)) (pos 0)) a.promised

-- A p1a message: the state afterwards, and the p1b message.
unfoldable pub on_prepare : Acceptor → PaxosMsg → Acceptor × PaxosMsg
unfolding promise refusal
on_prepare a msg =
    if ltb_ℤ a.promised msg.propose_number
    then (record a { promised = msg.propose_number }, promise a)
    else (a, refusal a)

-- A p2a message: the state afterwards, and the p2b message.
unfoldable pub on_accept : Acceptor → PaxosMsg → Acceptor × PaxosMsg
unfolding PaxosMsg.of_phase PaxosMsg.set_agree PaxosMsg.get_command
on_accept a msg =
    if eqb_ℤ msg.propose_number a.promised
    then (
      record a { accepted = msg.propose_number; value = PaxosMsg.get_command msg },
      PaxosMsg.set_agree (PaxosMsg.of_phase (pos 4)) (pos 1),
    )
    else (a, PaxosMsg.set_agree (PaxosMsg.of_phase (pos 4)) (pos 0))

abbrev pub answered : Acceptor × PaxosMsg → Acceptor × Option PaxosMsg
answered (a, reply) = (a, some reply)

-- One round of the loop, for a message whose phase is not negative. No reply to another phase.
unfoldable pub on_message : Acceptor → PaxosMsg → Acceptor × Option PaxosMsg
unfolding on_prepare on_accept
on_message a msg =
    if eqb_ℤ msg.phase (pos 1)
    then answered (on_prepare a msg)
    else if eqb_ℤ msg.phase (pos 3)
    then answered (on_accept a msg)
    else (a, none)

abbrev pub with_reply : Option PaxosMsg → Acceptor × List PaxosMsg → Acceptor × List PaxosMsg
with_reply none (a, replies) = (a, replies)
with_reply (some reply) (a, replies) = (a, reply ∷ replies)

-- The loop over the messages that arrive: a negative phase, which the stub gives when the
-- connection is lost, ends it. A reply that cannot be sent is only reported.
unfoldable pub serve : Acceptor → List PaxosMsg → Acceptor × List PaxosMsg
unfolding on_message
serve a [] = (a, [])
serve a (msg ∷ msgs) =
    let step = on_message a msg in
    let rest = serve (step.0) msgs in
    if ltb_ℤ msg.phase (pos 0) then (a, []) else with_reply (step.1) rest
