-- ===== src/Tests/Chosen.antt =====
-- A chosen value meets the next proposer.
use cs.Acceptor
use cs.Acceptor.{Acceptor}
use cs.Base.{◌≡◌, refl, true, some, List, [], ◌∷◌, arith, if◌then◌else◌, inr}
use cs.Base.Int.{ℤ, pos, negsuc, eqb_ℤ}
use cs.Messages.Command
use cs.Messages.Command.{Command}
use cs.Messages.PaxosMsg
use cs.Messages.PaxosMsg.{PaxosMsg}
use cs.Scout.{Net, Scout, no_tally}
use cs.Scout.Chosen.{holding, AreAnswers, prepare_round_keeps_chosen}
use cs.Scout.Counting.{replies}
use cs.Scout.Phases.{prepare_round}

abbrev value : Command
value = Command.of_fields (pos 1) (pos 8) Command.default_ip (pos 3) (pos 0)

abbrev holder : Acceptor
holder = record { promised = pos 4; accepted = pos 4; value = value }

abbrev newcomer : Acceptor
newcomer = Acceptor.new (pos 0)

abbrev acceptor_at : ℤ → Acceptor
acceptor_at stub = if eqb_ℤ stub (pos 2) then newcomer else holder

abbrev question : PaxosMsg
question = PaxosMsg.set_proposal_number (PaxosMsg.of_phase (pos 1)) (pos 5)

-- Each stub answers as its acceptor does.
abbrev held_net : Net (Unit {0})
held_net = record {
  init = λ ip port w. (some port, w);
  identify = λ stub role w. w;
  send = λ stub msg w. (true, w);
  receive = λ stub w. ((Acceptor.on_prepare (acceptor_at stub) question).1, w);
  command_id = λ id w. (pos 100, w);
  decisions = λ w. [];
}

abbrev proposer : Scout
proposer = record {
  factory_id = pos 1;
  acceptors = [];
  acceptor_count = 3;
  acceptor_stub_init = true;
  learner_stub_init = true;
  acceptor_stubs = (pos 1, pos 0) ∷ (pos 2, pos 1) ∷ (pos 3, pos 2) ∷ [];
  learner_stubs = [];
  proposal_number = pos 5;
  slot_in = pos 1;
  smr_log = [];
  last_index = negsuc 0;
  customer_record = [];
}

abbrev acceptors : List Acceptor
acceptors = holder ∷ holder ∷ newcomer ∷ []

answers : AreAnswers question acceptors (replies held_net question proposer.acceptor_stubs tt)
unfolding replies
answers = (inr refl, (inr refl, (inr refl, tt)))

prepare_round_keeps_chosen_example :
    let r = prepare_round held_net proposer (no_tally (pos 0)) tt in
    (r.tally.best ≡ pos 4) × (r.tally.command ≡ value)
unfolding prepare_round Acceptor.on_prepare holding Acceptor.new PaxosMsg.of_phase
    PaxosMsg.set_proposal_number no_tally
prepare_round_keeps_chosen_example =
    prepare_round_keeps_chosen held_net acceptors (pos 4) value (pos 0) proposer tt answers
      (omega arith) refl (omega arith)
      ((omega arith, λ e. refl), ((omega arith, λ e. refl), ((omega arith, λ e. cc), tt)))
      (omega arith)
