-- ===== src/Scout/Phases.antt =====
-- The phases of LaptopFactory::ScoutBrocasting (src/ServerThread.cpp), each a loop over the stubs.
use cs.Base.{
  ℕ, zero, suc, ◌/◌, Bool, true, false, Option, none, some, [], ◌∷◌, if◌then◌else◌, leb, ◌==◌,
}
use cs.Base.Int.{ℤ, pos}
use cs.Base.Word.{inc}
use cs.Map
use cs.Map.{Map}
use cs.Messages.Command.{Command}
use cs.Messages.PaxosMsg
use cs.Messages.PaxosMsg.{PaxosMsg}
use cs.Scout.{ServerAddress, Net, Scout, Tally, count_promise, count_accept, Round, add_stub, round}

-- More than half of the acceptors.
abbrev pub is_majority : Scout → ℕ → Bool
is_majority s n = if leb n (s.acceptor_count / 2) then false else true

-- How the prepare phase ends: `running` when the fuel is used up.
pub data Prepared (W : Type 0) : Type 0 where
  running : Prepared W
  too_few : Scout → W → Prepared W
  promised : Scout → Tally → W → Prepared W

-- What AcceptPhaseBrocasting returns: 1, 0, -1 and -2.
pub data Verdict : Type 0 where
  accepted full_reject part_reject inactive : Verdict

unfoldable pub verdict : Scout → ℕ × ℕ → Verdict
verdict s (accept_number, active_acceptors) =
    if is_majority s active_acceptors
    then (if accept_number == 0
        then full_reject
        else if is_majority s accept_number
        then accepted
        else part_reject)
    else inactive

-- The stubs after a round.
abbrev pub kept : {T W : Type 0} → Scout → Round T W → Scout
kept s r = record s { acceptor_stubs = r.stubs; learner_stubs = r.others }

-- proposalNumber = highestProposlNum + 1;
abbrev pub retry : {W : Type 0} → Scout → Round Tally W → Scout
retry s r = record (kept s r) { proposal_number = inc r.tally.highest }

module _ {W : Type 0} (net : Net W) where
  abbrev connected : ℤ → ℤ → Map ℤ → Option ℤ × W → Map ℤ × W
  connected role id stubs (some stub, w) = (Map.assign id stub stubs, net.identify stub role w)
  connected role id stubs (none, w) = (Map.erase id stubs, w)

  -- Init and Identify for every server of the map; one that cannot be reached gets no stub.
  unfoldable pub connect : ℤ → Map ServerAddress → Map ℤ → W → Map ℤ × W
  unfolding Map.assign Map.erase
  connect role [] stubs w = (stubs, w)
  connect role ((id, address) ∷ servers) stubs w =
      let (stubs', w') = connected role id stubs (net.init address.ip address.port w) in
      connect role servers stubs' w'

  unfoldable pub prepare_round : Scout → Tally → W → Round Tally W
  unfolding round count_promise PaxosMsg.of_phase PaxosMsg.set_proposal_number
  prepare_round s t w =
      round net (PaxosMsg.set_proposal_number (PaxosMsg.of_phase (pos 1)) s.proposal_number)
        count_promise s.acceptor_stubs s.learner_stubs t w

  -- The `while (true)` of the prepare phase. The counts are not reset between its rounds.
  unfoldable pub prepare : ℕ → Scout → Tally → W → Prepared W
  unfolding prepare_round inc
  prepare zero s t w = running
  prepare (suc fuel) s t w =
      let r = prepare_round s t w in
      let again = prepare fuel (retry s r) r.tally r.world in
      if is_majority s r.tally.active
      then (if is_majority s r.tally.promised then promised (kept s r) r.tally r.world else again)
      else too_few (kept s r) r.world

  unfoldable pub accept_round : Scout → Command → W → Round (ℕ × ℕ) W
  unfolding round count_accept PaxosMsg.of_phase PaxosMsg.set_command PaxosMsg.set_proposal_number
  accept_round s cmd w =
      let msg = PaxosMsg.set_command (PaxosMsg.of_phase (pos 3)) cmd in
      round net (PaxosMsg.set_proposal_number msg s.proposal_number) count_accept s.acceptor_stubs
        s.learner_stubs (0, 0) w

  -- AcceptPhaseBrocasting
  unfoldable pub accept_phase : Scout → Command → W → Verdict × Scout × W
  unfolding accept_round verdict
  accept_phase s cmd w = let r = accept_round s cmd w in (verdict s r.tally, kept s r, r.world)

  abbrev told : ℤ → Map ℤ → Bool × W → Bool × Map ℤ × W
  told id others (true, w) = (true, others, w)
  told id others (false, w) = (false, Map.erase id others, w)

  -- The loop of CommanderBrocasting: the learners get the message, and none answers.
  unfoldable pub tell : PaxosMsg → Map ℤ → Map ℤ → W → Round (Unit {0}) W
  unfolding Map.erase
  tell msg [] others w = record { stubs = []; others = others; tally = tt; world = w }
  tell msg ((id, stub) ∷ stubs) others w =
      let (stays, others', w') = told id others (net.send stub msg w) in
      add_stub stays id stub (tell msg stubs others' w')

  unfoldable pub connect_learners : Scout → W → Scout × W
  unfolding connect
  connect_learners s w =
      let (stubs, w') = connect (pos 3) s.acceptors s.learner_stubs w in
      if s.learner_stub_init
      then (s, w)
      else (record s { learner_stubs = stubs; learner_stub_init = true }, w')

  -- CommanderBrocasting
  unfoldable pub commander : Scout → Command → W → Scout × W
  unfolding connect_learners tell PaxosMsg.of_phase PaxosMsg.set_command
  commander s cmd w =
      let (s', w') = connect_learners s w in
      let r =
        tell (PaxosMsg.set_command (PaxosMsg.of_phase (pos 5)) cmd) s'.learner_stubs
          s'.acceptor_stubs w' in
      (record s' { learner_stubs = r.stubs; acceptor_stubs = r.others }, r.world)
