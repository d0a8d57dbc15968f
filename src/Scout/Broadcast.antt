-- ===== src/Scout/Broadcast.antt =====
-- LaptopFactory::ScoutBrocasting as a whole (src/ServerThread.cpp), and the rounds of ScoutThread.
use cs.Base.{
  ℕ, zero, suc, Bool, true, false, Option, none, some, List, [], ◌∷◌, ◌++◌, if◌then◌else◌, length,
  ◌||◌,
}
use cs.Base.Int.{ℤ, pos, negsuc, minus_one, eqb_ℤ}
use cs.Base.Word.{inc}
use cs.Map
use cs.Map.{Map}
use cs.Messages.Command
use cs.Messages.Command.{Command}
use cs.Messages.LaptopInfo
use cs.Messages.LaptopInfo.{LaptopInfo}
use cs.Messages.MapOp
use cs.Messages.MapOp.{MapOp}
use cs.Scout.{Net, Scout, Tally, no_tally}
use cs.Scout.Phases.{
  Prepared, running, too_few, promised, Verdict, accepted, full_reject, part_reject, inactive,
  connect, prepare, accept_phase, commander,
}

-- How a broadcast ends: it returns 0 or 1, or the fuel is used up.
pub data Outcome (W : Type 0) : Type 0 where
  waiting : Outcome W
  refused : Scout → W → Outcome W
  finished : Scout → W → Outcome W

abbrev pub has : {V : Type 0} → Option V → Bool
has none = false
has (some v) = true

abbrev pub if_taken : Option Command → ℤ → ℤ → ℤ
if_taken none here next = here
if_taken (some c) here next = next

-- while (decisionMap has slot_in) slot_in++; on fuel: with more fuel than the map has slots the
-- loop has ended.
unfoldable pub free_slot : ℕ → Map Command → ℤ → ℤ
unfolding Map.find inc
free_slot zero decisions slot = slot
free_slot (suc fuel) decisions slot =
    let next = free_slot fuel decisions (inc slot) in if_taken (Map.find slot decisions) slot next

module _ {W : Type 0} (net : Net W) where
  -- The factory's own command, for the first slot from slot_in on with no decision.
  unfoldable pub own_command : ℤ → LaptopInfo → Scout → W → Command × Scout × W
  unfolding free_slot Command.of_laptop Command.set_slot Command.set_command_id
  own_command junk laptop s w =
      let decisions = net.decisions w in
      let slot = free_slot (suc (length decisions)) decisions s.slot_in in
      let (id, w') = net.command_id s.factory_id w in
      (
        Command.set_command_id (Command.set_slot (Command.of_laptop junk laptop) slot) id,
        record s { slot_in = slot },
        w',
      )

  -- customer_record[…] = …; return 1;
  unfoldable pub finish : LaptopInfo → Scout × W → Outcome W
  unfolding Map.assign
  finish laptop (s, w) =
      finished
        (record s {
          customer_record = Map.assign laptop.customer_id laptop.order_number s.customer_record;
        })
        w

  -- After the accept phase for an own command; `again` is the jump to the label.
  unfoldable pub after_own :
      LaptopInfo → Command → (Scout → W → Outcome W) → Verdict × Scout × W → Outcome W
  unfolding finish commander
  after_own laptop cmd again (accepted, s, w) = finish laptop (commander net s cmd w)
  after_own laptop cmd again (full_reject, s, w) = again s w
  after_own laptop cmd again (part_reject, s, w) = finish laptop (s, w)
  after_own laptop cmd again (inactive, s, w) = finish laptop (s, w)

  -- After the accept phase for a command that an acceptor had accepted.
  unfoldable pub after_other :
      LaptopInfo → Command → (Scout → W → Outcome W) → Verdict × Scout × W → Outcome W
  unfolding finish commander
  after_other laptop cmd again (accepted, s, w) = finish laptop (commander net s cmd w)
  after_other laptop cmd again (full_reject, s, w) = again s w
  after_other laptop cmd again (part_reject, s, w) = again s w
  after_other laptop cmd again (inactive, s, w) = refused s w

  -- The value is the factory's own if no acceptor reported one, or if its slot is decided.
  unfoldable pub is_own : Tally → W → Bool
  unfolding Map.find
  is_own t w = eqb_ℤ t.best minus_one || has (Map.find t.command.slot (net.decisions w))

  unfoldable pub propose : ℤ → LaptopInfo → (Scout → W → Outcome W) → Prepared W → Outcome W
  unfolding own_command accept_phase after_own after_other is_own
  propose junk laptop again running = waiting
  propose junk laptop again (too_few s w) = refused s w
  propose junk laptop again (promised s t w) =
      let (cmd, s', w') = own_command junk laptop s w in
      if is_own t w
      then after_own laptop cmd again (accept_phase net s' cmd w')
      else after_other laptop t.command again (accept_phase net s t.command w)

  -- From the label start_proposalNum_compete on: `jumps` bounds how often it is reached, and
  -- `rounds` the rounds of each prepare phase.
  unfoldable pub compete : ℕ → ℕ → ℤ → LaptopInfo → Scout → W → Outcome W
  unfolding prepare propose no_tally
  compete zero rounds junk laptop s w = waiting
  compete (suc jumps) rounds junk laptop s w =
      propose junk laptop (compete jumps rounds junk laptop)
        (prepare net rounds s (no_tally junk) w)

  unfoldable pub connect_acceptors : Scout → W → Scout × W
  unfolding connect
  connect_acceptors s w =
      let (stubs, w') = connect net (pos 2) s.acceptors s.acceptor_stubs w in
      if s.acceptor_stub_init
      then (s, w)
      else (record s { acceptor_stubs = stubs; acceptor_stub_init = true }, w')

  -- The operation for the state machine log, which nothing reads back.
  unfoldable pub log_op : LaptopInfo → Scout → Scout
  unfolding MapOp.new MapOp.set_map_op
  log_op laptop s =
      let op = MapOp.set_map_op MapOp.new (pos 1) laptop.customer_id laptop.order_number in
      record s { smr_log = s.smr_log ++ op ∷ []; last_index = pos (length s.smr_log) }

  -- ScoutBrocasting
  unfoldable pub broadcast : ℕ → ℕ → ℤ → LaptopInfo → Scout → W → Outcome W
  unfolding connect_acceptors log_op compete
  broadcast jumps rounds junk laptop s w =
      let (s', w') = connect_acceptors s w in compete jumps rounds junk laptop (log_op laptop s') w'

  -- What ScoutThread answers the customer's engineer: the admin is the factory, or -5 when there
  -- are too few acceptors.
  unfoldable pub answer : ℤ → LaptopInfo → Outcome W → Option (LaptopInfo × Scout × W)
  unfolding LaptopInfo.set_admin_id
  answer id laptop waiting = none
  answer id laptop (refused s w) =
      some (LaptopInfo.set_admin_id (LaptopInfo.set_admin_id laptop id) (negsuc 4), s, w)
  answer id laptop (finished s w) = some (LaptopInfo.set_admin_id laptop id, s, w)

  abbrev with_answer :
      LaptopInfo → Option (List LaptopInfo × Scout × W) → Option (List LaptopInfo × Scout × W)
  with_answer laptop none = none
  with_answer laptop (some (laptops, s, w)) = some (laptop ∷ laptops, s, w)

  abbrev and_next :
      Option (LaptopInfo × Scout × W)
      → (Scout → W → Option (List LaptopInfo × Scout × W))
      → Option (List LaptopInfo × Scout × W)
  and_next none next = none
  and_next (some (laptop, s, w)) next = with_answer laptop (next s w)

  -- The loop of ScoutThread over the orders that come out of the queue, with its answers.
  -- `meanwhile` is what the other threads do while ScoutThread waits for the next order.
  unfoldable pub serve_queue :
      (W → W) → ℕ → ℕ → ℤ → ℤ → List LaptopInfo → Scout → W → Option (List LaptopInfo × Scout × W)
  unfolding answer broadcast
  serve_queue meanwhile jumps rounds junk id [] s w = some ([], s, w)
  serve_queue meanwhile jumps rounds junk id (laptop ∷ queue) s w =
      and_next (answer id laptop (broadcast jumps rounds junk laptop s (meanwhile w)))
        (serve_queue meanwhile jumps rounds junk id queue)

-- The assignments at the start of ScoutThread.
unfoldable pub start : ℤ → Scout → Scout
start id s = record s {
  last_index = minus_one;
  factory_id = id;
  acceptor_stub_init = false;
  learner_stub_init = false;
}
