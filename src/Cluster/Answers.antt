-- ===== src/Cluster/Answers.antt =====
-- What an acceptor of src/ServerThread.cpp answers to a proposer, and how many equal answers count.
use cs.Acceptor
use cs.Acceptor.{Acceptor}
use cs.Base.{◌<◌, ◌≡◌, refl, ◌∙◌, inl, inr, true, false, some, [], ◌∷◌, length, arith}
use cs.Base.Int.{ℤ, pos, ltb_ℤ, max_ℤ, eqb_ℤ_refl, ◌≤ℤ◌, ◌<ℤ◌}
use cs.Cluster.Rounds.{same_from}
use cs.Map.{Map}
use cs.Messages.Command
use cs.Messages.Command.{Command}
use cs.Messages.PaxosMsg
use cs.Messages.PaxosMsg.{PaxosMsg}
use cs.Scout.{Tally, agrees, count_promise}
use cs.Scout.Counting.{Reported, count_all}

-- The three messages of a proposer.
abbrev pub prepare_msg : ℤ → PaxosMsg
prepare_msg n = PaxosMsg.set_proposal_number (PaxosMsg.of_phase (pos 1)) n

abbrev pub accept_msg : ℤ → Command → PaxosMsg
accept_msg n cmd =
    PaxosMsg.set_proposal_number (PaxosMsg.set_command (PaxosMsg.of_phase (pos 3)) cmd) n

pub on_message-promise :
    (a : Acceptor) (n : ℤ)
    → a.promised <ℤ n
    → Acceptor.on_message a (prepare_msg n) ≡ (record a { promised = n }, some (Acceptor.promise a))
unfolding Acceptor.on_message Acceptor.on_prepare PaxosMsg.set_proposal_number PaxosMsg.of_phase
on_message-promise a n h = let e : ltb_ℤ a.promised n ≡ true = ground arith in rw e refl

pub on_message-refusal :
    (a : Acceptor) (n : ℤ)
    → n ≤ℤ a.promised
    → Acceptor.on_message a (prepare_msg n) ≡ (a, some (Acceptor.refusal a))
unfolding Acceptor.on_message Acceptor.on_prepare PaxosMsg.set_proposal_number PaxosMsg.of_phase
on_message-refusal a n h = let e : ltb_ℤ a.promised n ≡ false = ground arith in rw e refl

-- An acceptor that accepts.
abbrev pub holding : ℤ → Command → Acceptor
holding n cmd = record { promised = n; accepted = n; value = cmd }

abbrev pub accept_reply : PaxosMsg
accept_reply = PaxosMsg.set_agree (PaxosMsg.of_phase (pos 4)) (pos 1)

pub on_message-accept :
    (a : Acceptor) (n : ℤ) (cmd : Command)
    → a.promised ≡ n
    → Acceptor.on_message a (accept_msg n cmd) ≡ (holding n cmd, some accept_reply)
unfolding Acceptor.on_message Acceptor.on_accept PaxosMsg.set_proposal_number PaxosMsg.set_command
    PaxosMsg.of_phase PaxosMsg.get_command Command.of_fields
on_message-accept a n cmd h = rw (h, eqb_ℤ_refl n) refl

pub agrees-promise : (a : Acceptor) → agrees (Acceptor.promise a) ≡ true
unfolding Acceptor.promise PaxosMsg.set_agree PaxosMsg.set_accepted_proposal PaxosMsg.set_command
agrees-promise a = ground arith

pub agrees-refusal : (a : Acceptor) → agrees (Acceptor.refusal a) ≡ false
unfolding Acceptor.refusal PaxosMsg.set_agree PaxosMsg.set_proposal_number
agrees-refusal a = refl

pub agrees-accept_reply : agrees accept_reply ≡ true
unfolding PaxosMsg.set_agree
agrees-accept_reply = refl

pub number-refusal : (a : Acceptor) → (Acceptor.refusal a).propose_number ≡ a.promised
unfolding Acceptor.refusal PaxosMsg.set_proposal_number
number-refusal a = refl

-- What is reported is the one answer.
pub Reported-same_from :
    (best : ℤ) (cmd : Command) (r : PaxosMsg) (stubs : Map ℤ)
    → Reported best cmd (same_from stubs r)
    → (agrees r ≡ true) × (r.accepted_proposal ≡ best) × (PaxosMsg.get_command r ≡ cmd)
Reported-same_from best cmd r [] h = absurd h
Reported-same_from best cmd r (e ∷ stubs) (inl h) = h
Reported-same_from best cmd r (e ∷ stubs) (inr h) = Reported-same_from best cmd r stubs h

highest-step :
    (m : PaxosMsg) (t : Tally) → (count_promise m t).highest ≡ max_ℤ t.highest m.propose_number
unfolding count_promise
highest-step m t = ground arith

highest-rest :
    (r : PaxosMsg) (t : Tally) (stubs : Map ℤ)
    → r.propose_number ≤ℤ t.highest
    → (count_all count_promise t (same_from stubs r)).highest ≡ t.highest
unfolding count_all
highest-rest r t [] h = refl
highest-rest r t (e ∷ stubs) h =
    let same : (count_promise r t).highest ≡ t.highest = ground (arith, highest-step r t) in
    highest-rest r (count_promise r t) stubs (rw same h) ∙ same

pub highest-same_from :
    (r : PaxosMsg) (t : Tally) (stubs : Map ℤ)
    → 0 < length stubs
    → t.highest ≤ℤ r.propose_number
    → (count_all count_promise t (same_from stubs r)).highest ≡ r.propose_number
unfolding count_all
highest-same_from r t [] some_stub h = absurd (omega arith)
highest-same_from r t (e ∷ stubs) some_stub h =
    let same : (count_promise r t).highest ≡ r.propose_number = ground (arith, highest-step r t) in
    highest-rest r (count_promise r t) stubs (rw same (omega arith)) ∙ same
