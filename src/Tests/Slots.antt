-- ===== src/Tests/Slots.antt =====
-- The slot of an own command, where other threads have learnt some decisions.
use cs.Base.{◌≡◌, refl, true, none, [], ◌∷◌, arith}
use cs.Base.Int.{pos, negsuc}
use cs.Map
use cs.Map.{Map}
use cs.Messages.Command
use cs.Messages.Command.{Command}
use cs.Messages.LaptopInfo
use cs.Messages.LaptopInfo.{LaptopInfo}
use cs.Messages.PaxosMsg
use cs.Scout.{Net, Scout}
use cs.Scout.Broadcast.{own_command}
use cs.Map.Slots.{IsFirstFree}
use cs.Scout.Slots.{own_command-IsFirstFree}

-- The world is decisionMap.
abbrev deciding : Net (Map Command)
deciding = record {
  init = λ ip port w. (none, w);
  identify = λ stub role w. w;
  send = λ stub msg w. (true, w);
  receive = λ stub w. (PaxosMsg.new, w);
  command_id = λ id w. (pos 100, w);
  decisions = λ w. w;
}

abbrev scout : Scout
scout = record {
  factory_id = pos 1;
  acceptors = [];
  acceptor_count = 3;
  acceptor_stub_init = true;
  learner_stub_init = true;
  acceptor_stubs = [];
  learner_stubs = [];
  proposal_number = pos 0;
  slot_in = pos 2;
  smr_log = [];
  last_index = negsuc 0;
  customer_record = [];
}

abbrev decided : Map Command
decided =
    (pos 1, Command.new (pos 1))
    ∷ (pos 2, Command.new (pos 2))
    ∷ (pos 3, Command.new (pos 3))
    ∷ (pos 5, Command.new (pos 5))
    ∷ []

slot_4 : (own_command deciding (pos 0) LaptopInfo.new scout decided).0.slot ≡ pos 4
unfolding own_command Command.set_slot Command.set_command_id Command.of_laptop
slot_4 = refl

own_command-IsFirstFree_example :
    let (cmd, s', w') = own_command deciding (pos 0) LaptopInfo.new scout decided in
    IsFirstFree decided (pos 2) cmd.slot
    × (s'.slot_in ≡ cmd.slot)
    × (cmd.customer_id ≡ LaptopInfo.new.customer_id)
    × (cmd.order_id ≡ LaptopInfo.new.order_number)
unfolding Map.find
own_command-IsFirstFree_example =
    own_command-IsFirstFree deciding (pos 0) LaptopInfo.new scout decided (omega arith) refl
