-- ===== src/Scout.antt =====
-- The proposer of src/ServerThread.cpp: LaptopFactory::ScoutBrocasting with
-- AcceptPhaseBrocasting and CommanderBrocasting, against a network that answers as it likes.
pub mod Counting
pub mod Phases
pub mod Broadcast
pub mod Quorums
pub mod Lone
pub mod Slots
pub mod Chosen
use cs.Base.{
  ℕ, zero, suc, ◌+◌, ◌/◌, ◌≡◌, Bool, true, false, Option, none, some, List, [], ◌∷◌, ◌++◌,
  if◌then◌else◌, leb, ◌==◌, length, not, ◌||◌,
}
use cs.Base.Int.{ℤ, pos, minus_one, ltb_ℤ, eqb_ℤ, max_ℤ}
use cs.Base.Word.{inc}
use cs.Map
use cs.Map.{Map}
use cs.Messages.Command
use cs.Messages.Command.{Command}
use cs.Messages.LaptopInfo.{LaptopInfo}
use cs.Messages.MapOp
use cs.Messages.MapOp.{MapOp}
use cs.Messages.PaxosMsg
use cs.Messages.PaxosMsg.{PaxosMsg}

pub record ServerAddress : Type 0 where
  pub ip : List ℕ
  pub port : ℤ

-- What the thread meets outside its own variables, over a world `W`: the four operations of
-- ClientStub that it calls (a stub is named by its descriptor), generateCommandID, and decisionMap,
-- to which other threads add. Each operation sees the world as it is at the time of the call.
pub record Net (W : Type 0) : Type 0 where
  pub init : List ℕ → ℤ → W → Option ℤ × W
  pub identify : ℤ → ℤ → W → W
  pub send : ℤ → PaxosMsg → W → Bool × W
  pub receive : ℤ → W → PaxosMsg × W
  pub command_id : ℤ → W → ℤ × W
  pub decisions : W → Map Command

-- The variables of the LaptopFactory that this thread alone uses, and customer_record.
pub record Scout : Type 0 where
  pub factory_id : ℤ
  pub acceptors : Map ServerAddress
  pub acceptor_count : ℕ
  pub acceptor_stub_init : Bool
  pub learner_stub_init : Bool
  pub acceptor_stubs : Map ℤ
  pub learner_stubs : Map ℤ
  pub proposal_number : ℤ
  pub slot_in : ℤ
  pub smr_log : List MapOp
  pub last_index : ℤ
  pub customer_record : Map ℤ

-- What is counted while p1b messages come in.
pub record Tally : Type 0 where
  pub promised : ℕ
  pub highest : ℤ
  pub command : Command
  pub best : ℤ
  pub active : ℕ

-- The tally at start_proposalNum_compete.
unfoldable pub no_tally : ℤ → Tally
unfolding Command.new
no_tally junk = record {
  promised = 0;
  highest = minus_one;
  command = Command.new junk;
  best = minus_one;
  active = 0;
}

-- isAgree() as a condition.
abbrev pub agrees : PaxosMsg → Bool
agrees m = not (eqb_ℤ m.agree (pos 0))

-- A p1b message.
unfoldable pub count_promise : PaxosMsg → Tally → Tally
unfolding PaxosMsg.get_command
count_promise m t =
    let seen : Tally = record t {
      active = t.active + 1;
      highest = max_ℤ t.highest m.propose_number;
    } in
    if agrees m
    then (if ltb_ℤ t.best m.accepted_proposal
        then record seen {
          promised = t.promised + 1;
          best = m.accepted_proposal;
          command = PaxosMsg.get_command m;
        }
        else record seen { promised = t.promised + 1 })
    else seen

-- A p2b message; the tally is accept_number and active_acceptors.
unfoldable pub count_accept : PaxosMsg → ℕ × ℕ → ℕ × ℕ
count_accept m (accepted, active) =
    if agrees m then (accepted + 1, active + 1) else (accepted, active + 1)

-- The state of a loop over a map of stubs: the stubs that stay, those of the other map, the tally
-- and the world.
pub record Round (T W : Type 0) : Type 0 where
  pub stubs : Map ℤ
  pub others : Map ℤ
  pub tally : T
  pub world : W

abbrev pub add_stub : {T W : Type 0} → Bool → ℤ → ℤ → Round T W → Round T W
add_stub true id stub r = record r { stubs = (id, stub) ∷ r.stubs }
add_stub false id stub r = r

module _ {W : Type 0} (net : Net W) where
  abbrev counted : {T : Type 0} → (PaxosMsg → T → T) → T → PaxosMsg × W → T × W
  counted count t (m, w) = (count m t, w)

  abbrev exchanged :
      {T : Type 0} → (PaxosMsg → T → T) → ℤ → ℤ → T → Map ℤ → Bool × W → Bool × Map ℤ × T × W
  exchanged count id stub t others (true, w) =
      let (t', w') = counted count t (net.receive stub w) in (true, others, t', w')
  exchanged count id stub t others (false, w) = (false, Map.erase id others, t, w)

  -- The loop of both phases: send to each stub in the order of the ids; where that fails, take the
  -- server out of both maps, and otherwise receive a message and count it.
  unfoldable pub round :
      {T : Type 0} → PaxosMsg → (PaxosMsg → T → T) → Map ℤ → Map ℤ → T → W → Round T W
  unfolding Map.erase
  round msg count [] others t w = record { stubs = []; others = others; tally = t; world = w }
  round msg count ((id, stub) ∷ stubs) others t w =
      let (kept, others', t', w') = exchanged count id stub t others (net.send stub msg w) in
      add_stub kept id stub (round msg count stubs others' t' w')
