-- ===== src/Tests/Paxos.antt =====
-- Runs of the acceptor, the learner and the proposer of src/ServerThread.cpp.
use cs.Acceptor
use cs.Acceptor.{Acceptor}
use cs.Acceptor.History.{promise_kept, accepted_reported}
use cs.Acceptor.Promises.{new-IsValid}
use cs.Base.{◌+◌, ◌/◌, ◌≡◌, refl, true, List, [], ◌∷◌, ◌++◌, some, arith, if◌then◌else◌, leb, ◌==◌}
use cs.Base.Int.{ℤ, pos, negsuc, ◌≤ℤ◌, eqb_ℤ, eqb_ℤ_iff}
use cs.Base.Word.{inc}
use cs.Learner.{Learner, learn}
use cs.Learner.Gaps.{learn_next, learn_closes_gap}
use cs.Learner.Progress.{Taken, learn-Taken}
use cs.Map
use cs.Map.{Map}
use cs.Messages.Command
use cs.Messages.Command.{Command}
use cs.Messages.PaxosMsg
use cs.Messages.PaxosMsg.{PaxosMsg}
use cs.Scout.{Net, Scout, Tally, no_tally}
use cs.Scout.Counting.{agreeing, answers}
use cs.Scout.Lone.{IsLone, lone_promise}
use cs.Scout.Phases.{promised, prepare, accept_phase, inactive, full_reject, part_reject, accepted}
use cs.Scout.Quorums.{Ends, all_replies, prepare-Ends, accept_replies, accept_phase_verdict}

abbrev command_at : ℤ → ℤ → Command
command_at slot id = Command.of_fields slot id [] (pos 3) (pos 0)

abbrev prepares : ℤ → PaxosMsg
prepares n = PaxosMsg.set_proposal_number (PaxosMsg.of_phase (pos 1)) n

abbrev accepts : ℤ → Command → PaxosMsg
accepts n cmd =
    PaxosMsg.set_proposal_number (PaxosMsg.set_command (PaxosMsg.of_phase (pos 3)) cmd) n

abbrev fresh : Acceptor
fresh = Acceptor.new (pos 0)

fresh_answers : (Acceptor.serve fresh (prepares (pos 4) ∷ prepares (pos 2) ∷ [])).0.promised ≡ pos 4
unfolding Acceptor.serve Acceptor.new PaxosMsg.set_proposal_number PaxosMsg.of_phase
fresh_answers = refl

promise_kept_example :
    let b =
      (Acceptor.serve (Acceptor.on_prepare fresh (prepares (pos 4))).0 (prepares (pos 9) ∷ [])).0 in
    ((Acceptor.on_accept b (accepts (pos 3) (command_at (pos 1) (pos 8)))).0 ≡ b)
    × ((Acceptor.on_accept b (accepts (pos 3) (command_at (pos 1) (pos 8)))).1.agree ≡ pos 0)
    × ((Acceptor.on_prepare b (prepares (pos 4))).0 ≡ b)
    × ((Acceptor.on_prepare b (prepares (pos 4))).1.agree ≡ pos 0)
    × ((prepares (pos 4)).propose_number
        ≤ℤ (Acceptor.on_prepare b (prepares (pos 4))).1.propose_number)
unfolding Acceptor.new PaxosMsg.set_proposal_number
promise_kept_example =
    promise_kept fresh (prepares (pos 4)) (prepares (pos 9) ∷ [])
      (accepts (pos 3) (command_at (pos 1) (pos 8))) (prepares (pos 4)) (new-IsValid (pos 0))
      (omega arith) (omega arith) (omega arith)

-- It has promised 4, and accepts at 4.
abbrev bound : Acceptor
bound = record { promised = pos 4; accepted = negsuc 0; value = command_at (pos 1) (pos 8) }

abbrev chosen_4 : PaxosMsg
chosen_4 = accepts (pos 4) (command_at (pos 1) (pos 8))

accepted_reported_example :
    let b = (Acceptor.serve (Acceptor.on_accept bound chosen_4).0 []).0 in
    let reply = (Acceptor.on_prepare b (prepares (pos 5))).1 in
    (reply.agree ≡ pos 1)
    × (pos 4 ≤ℤ reply.accepted_proposal)
    × (reply.accepted_proposal ≡ b.accepted)
    × (PaxosMsg.get_command reply ≡ b.value)
unfolding PaxosMsg.set_proposal_number Acceptor.on_accept Acceptor.serve
accepted_reported_example =
    accepted_reported bound chosen_4 [] (prepares (pos 5)) (omega arith) refl (omega arith)
      (omega arith)

-- Slot 2 is decided before slot 1.
abbrev gap : Learner
gap = record { decisions = (pos 2, command_at (pos 2) (pos 20)) ∷ []; slot_out = pos 1; log = [] }

gap_closed :
    learn (command_at (pos 1) (pos 10)) gap
    ≡ some (record {
      decisions = (pos 1, command_at (pos 1) (pos 10)) ∷ (pos 2, command_at (pos 2) (pos 20)) ∷ [];
      slot_out = pos 3;
      log = (pos 1, command_at (pos 1) (pos 10)) ∷ (pos 2, command_at (pos 1) (pos 10)) ∷ [];
    })
unfolding learn Command.of_fields
gap_closed = refl

learn-Taken_example :
    Taken
      (command_at (pos 1) (pos 10))
      (record gap {
        decisions =
            Map.assign
              (command_at (pos 1) (pos 10)).slot
              (command_at (pos 1) (pos 10))
              gap.decisions;
      })
      (learn (command_at (pos 1) (pos 10)) gap)
unfolding Command.of_fields Map.assign Map.find
learn-Taken_example = learn-Taken (command_at (pos 1) (pos 10)) gap (omega arith) refl

abbrev waiting_2 : Learner
waiting_2 = record gap { slot_out = pos 2; decisions = [] }

learn_next_example :
    learn (command_at (pos 2) (pos 20)) waiting_2
    ≡ some (record {
      decisions = Map.assign (command_at (pos 2) (pos 20)).slot (command_at (pos 2) (pos 20)) [];
      slot_out = inc (pos 2);
      log = [] ++ (pos 2, command_at (pos 2) (pos 20)) ∷ [];
    })
unfolding Map.find Command.of_fields inc
learn_next_example =
    learn_next (command_at (pos 2) (pos 20)) waiting_2 refl (λ e. ground arith) refl

learn_closes_gap_example :
    (later : Learner) × (rest : List (ℤ × Command)) × (learn (command_at (pos 1) (pos 10)) gap
      ≡ some later)
    × (later.log
        ≡ []
          ++ ((pos 1, command_at (pos 1) (pos 10))
              ∷ (inc (pos 1), command_at (pos 1) (pos 10))
              ∷ rest))
    × (Map.find (inc (pos 1)) later.decisions ≡ some (command_at (pos 2) (pos 20)))
unfolding Map.find Map.assign Command.of_fields inc
learn_closes_gap_example =
    learn_closes_gap (command_at (pos 1) (pos 10)) (command_at (pos 2) (pos 20)) gap (omega arith)
      refl refl (λ e. ground arith) refl

-- The acceptor behind stub 0 promises, the others refuse.
abbrev lone_reply : ℤ → PaxosMsg
lone_reply stub =
    if eqb_ℤ stub (pos 0)
    then record PaxosMsg.new { phase = pos 2; agree = pos 1 }
    else record PaxosMsg.new { phase = pos 2; agree = pos 0 }

abbrev lone_net : Net (Unit {0})
lone_net = record {
  init = λ ip port w. (some port, w);
  identify = λ stub role w. w;
  send = λ stub msg w. (true, w);
  receive = λ stub w. (lone_reply stub, w);
  command_id = λ id w. (pos 100, w);
  decisions = λ w. [];
}

lone_net-IsLone : IsLone lone_net (pos 0)
lone_net-IsLone = record {
  sends = λ stub msg w. refl;
  agree = λ w. refl;
  refuse = λ stub w ne. ground (arith, eqb_ℤ_iff stub (pos 0));
}

abbrev three_acceptors : Scout
three_acceptors = record {
  factory_id = pos 1;
  acceptors = [];
  acceptor_count = 3;
  acceptor_stub_init = true;
  learner_stub_init = true;
  acceptor_stubs = (pos 1, pos 0) ∷ (pos 2, pos 1) ∷ (pos 3, pos 2) ∷ [];
  learner_stubs = [];
  proposal_number = pos 0;
  slot_in = pos 1;
  smr_log = [];
  last_index = negsuc 0;
  customer_record = [];
}

lone_promise_example :
    (s' : Scout) × (u : Tally) × (w' : Unit {0}) × (prepare lone_net
        (three_acceptors.acceptor_count / 2 + 1)
        three_acceptors
        (no_tally (pos 0))
        tt
      ≡ promised s' u w')
    × (u.promised ≡ three_acceptors.acceptor_count / 2 + 1)
lone_promise_example =
    lone_promise lone_net (pos 0) lone_net-IsLone (pos 0) three_acceptors tt refl refl

prepare-Ends_example :
    Ends lone_net three_acceptors
      (no_tally (pos 0))
      (all_replies lone_net 2 three_acceptors (no_tally (pos 0)) tt)
      (prepare lone_net 2 three_acceptors (no_tally (pos 0)) tt)
prepare-Ends_example = prepare-Ends lone_net 2 three_acceptors (no_tally (pos 0)) tt

accept_phase_verdict_example :
    let rs = accept_replies lone_net three_acceptors (command_at (pos 1) (pos 10)) tt in
    (accept_phase lone_net three_acceptors (command_at (pos 1) (pos 10)) tt).0 ≡ (
      if leb (answers rs) (3 / 2)
      then inactive
      else if agreeing rs == 0
      then full_reject
      else if leb (agreeing rs) (3 / 2)
      then part_reject
      else accepted)
accept_phase_verdict_example =
    accept_phase_verdict lone_net three_acceptors (command_at (pos 1) (pos 10)) tt
