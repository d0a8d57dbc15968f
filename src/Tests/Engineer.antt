-- ===== src/Tests/Engineer.antt =====
-- Runs of the engineers and of the queue to the scout (src/ServerThread.cpp).
use cs.Acceptor
use cs.Acceptor.{Acceptor}
use cs.Base.{ℕ, ◌≡◌, refl, true, false, Option, none, some, List, [], ◌∷◌, ◌++◌, arith, replicate}
use cs.Base.Int.{ℤ, pos, negsuc}
use cs.Engineer.{
  Factory, new_laptop, create_regular_laptop, serve_backup, log_response, add_acceptor,
}
use cs.Engineer.Backup.{Backed, serve_backup-Backed, commit_past_end}
use cs.Engineer.Queue.{
  Desk, push, turn, Reach, opened, stepped, ordered, served, InOrder, Reach-InOrder,
}
use cs.Engineer.Records.{Served, order_then_read}
use cs.Engineer.Servers.{IsConsistent, add_acceptors, add_acceptors-IsConsistent}
use cs.Map
use cs.Messages.Command
use cs.Messages.CustomerRequest.{CustomerRequest}
use cs.Messages.LaptopInfo.{LaptopInfo}
use cs.Messages.LogRequest
use cs.Messages.LogRequest.{LogRequest}
use cs.Messages.PaxosMsg
use cs.Messages.PaxosMsg.{PaxosMsg}
use cs.Scout.{Net, Scout}

-- A system of one server, whose scout talks to its own acceptor.
abbrev keep_or : PaxosMsg → Acceptor × Option PaxosMsg → Acceptor × PaxosMsg
keep_or old (a, none) = (a, old)
keep_or old (a, some reply) = (a, reply)

abbrev own_step : PaxosMsg → Acceptor × PaxosMsg → Acceptor × PaxosMsg
own_step msg (a, old) = keep_or old (Acceptor.on_message a msg)

abbrev own_net : Net (Acceptor × PaxosMsg)
own_net = record {
  init = λ ip port w. (some port, w);
  identify = λ stub role w. w;
  send = λ stub msg w. (true, own_step msg w);
  receive = λ stub w. (w.1, w);
  command_id = λ id w. (pos 100, w);
  decisions = λ w. [];
}

abbrev one_server : Scout
one_server = record {
  factory_id = pos 1;
  acceptors = (pos 1, record { ip = []; port = pos 9000 }) ∷ [];
  acceptor_count = 1;
  acceptor_stub_init = false;
  learner_stub_init = false;
  acceptor_stubs = [];
  learner_stubs = [];
  proposal_number = pos 0;
  slot_in = pos 1;
  smr_log = [];
  last_index = negsuc 0;
  customer_record = [];
}

abbrev fresh : Acceptor × PaxosMsg
fresh = (Acceptor.new (pos 0), PaxosMsg.new)

abbrev order_7 : CustomerRequest
order_7 = record { customer_id = pos 3; order_number = pos 7; request_type = pos 1 }

-- After the order: slot 1 is accepted at number 0.
abbrev served_server : Scout
served_server = record one_server {
  acceptor_stub_init = true;
  learner_stub_init = true;
  acceptor_stubs = (pos 1, pos 9000) ∷ [];
  learner_stubs = (pos 1, pos 9000) ∷ [];
  smr_log = record { opcode = pos 1; arg1 = pos 3; arg2 = pos 7 } ∷ [];
  last_index = pos 0;
  customer_record = (pos 3, pos 7) ∷ [];
}

abbrev bound_world : Acceptor × PaxosMsg
bound_world = (
  record {
    promised = pos 0;
    accepted = pos 0;
    value = Command.of_fields (pos 1) (pos 100) Command.default_ip (pos 3) (pos 7);
  },
  PaxosMsg.set_agree (PaxosMsg.of_phase (pos 4)) (pos 1),
)

abbrev laptop_7 : LaptopInfo
laptop_7 = record {
  customer_id = pos 3;
  order_number = pos 7;
  request_type = pos 1;
  engineer_id = pos 5;
  admin_id = pos 1;
}

served_7 :
    create_regular_laptop own_net 1 1 (pos 0) order_7 (pos 5) one_server fresh
    ≡ some (laptop_7, served_server, bound_world)
unfolding create_regular_laptop Acceptor.new PaxosMsg.new Acceptor.on_message Command.of_fields
    PaxosMsg.of_phase PaxosMsg.set_agree
served_7 = refl

order_then_read_example : Served order_7 (pos 5) (pos 1) [] ((pos 3, pos 7) ∷ []) laptop_7
order_then_read_example =
    order_then_read own_net 1 1 (pos 0) order_7 (pos 5) one_server served_server fresh bound_world
      laptop_7 served_7

-- Two orders come in before the scout has a round.
abbrev order_8 : CustomerRequest
order_8 = record { customer_id = pos 4; order_number = pos 8; request_type = pos 1 }

abbrev open_desk : Desk (Acceptor × PaxosMsg)
open_desk = record { queue = []; scout = one_server; world = fresh; answers = [] }

abbrev both_wait : Desk (Acceptor × PaxosMsg)
both_wait = push (new_laptop order_8 (pos 6)) (push (new_laptop order_7 (pos 5)) open_desk)

abbrev pushes : List LaptopInfo
pushes = ([] ++ new_laptop order_7 (pos 5) ∷ []) ++ new_laptop order_8 (pos 6) ∷ []

abbrev one_answered : Desk (Acceptor × PaxosMsg)
one_answered = record {
  queue = new_laptop order_8 (pos 6) ∷ [];
  scout = served_server;
  world = bound_world;
  answers = laptop_7 ∷ [];
}

first_turn : turn own_net 1 1 (pos 0) (pos 1) both_wait ≡ some one_answered
unfolding turn push new_laptop Acceptor.new PaxosMsg.new Acceptor.on_message Command.of_fields
    PaxosMsg.of_phase PaxosMsg.set_agree
first_turn = refl

one_answered-Reach : Reach own_net 1 1 (pos 0) (pos 1) one_server fresh pushes one_answered
one_answered-Reach =
    stepped
      (stepped (stepped opened (ordered order_7 (pos 5) [] open_desk))
        (ordered order_8 (pos 6) _ _))
      (served _ both_wait one_answered first_turn)

Reach-InOrder_example : InOrder own_net 1 1 (pos 0) (pos 1) pushes one_answered
Reach-InOrder_example =
    Reach-InOrder own_net 1 1 (pos 0) (pos 1) one_server fresh pushes one_answered
      one_answered-Reach

-- A backup of two entries, the first of which is committed with the second.
abbrev idle_factory : Factory
idle_factory = record {
  scout = record one_server { acceptors = []; acceptor_count = 0 };
  committed_index = negsuc 0;
  server_config = record { servers = [] };
}

abbrev log_entry : ℤ → ℤ → ℤ → LogRequest
log_entry index customer order = record {
  factory_id = pos 2;
  committed_index = index;
  last_index = pos 0;
  op = record { opcode = pos 1; arg1 = customer; arg2 = order };
}

abbrev two_entries : List LogRequest
two_entries = log_entry (negsuc 0) (pos 3) (pos 7) ∷ log_entry (pos 0) (pos 4) (pos 8) ∷ []

serve_backup-Backed_example :
    (g : Factory) × (serve_backup two_entries idle_factory
      ≡ some (g, replicate 2 (log_response idle_factory)))
    × Backed idle_factory two_entries g
unfolding LogRequest.is_valid
serve_backup-Backed_example =
    serve_backup-Backed two_entries idle_factory (refl, omega arith, (refl, omega arith, tt))

commit_past_end_example : serve_backup (log_entry (pos 5) (pos 3) (pos 7) ∷ []) idle_factory ≡ none
unfolding LogRequest.is_valid
commit_past_end_example =
    commit_past_end (log_entry (pos 5) (pos 3) (pos 7)) [] idle_factory refl (omega arith)

abbrev two_servers : List (ℤ × List ℕ × ℤ)
two_servers = (pos 1, 49 ∷ [], pos 9000) ∷ (pos 2, 50 ∷ [], pos 9001) ∷ []

add_acceptors-IsConsistent_example : IsConsistent (add_acceptors two_servers idle_factory)
unfolding Map.find Map.assign add_acceptor
add_acceptors-IsConsistent_example =
    add_acceptors-IsConsistent two_servers idle_factory
      (record { sorted = tt; same = λ id. refl; count = refl }) (refl, (refl, tt))
