-- ===== src/Tests/Cluster.antt =====
-- Two servers of src/ServerThread.cpp that lose no message.
use cs.Acceptor
use cs.Base.{ℕ, ◌≡◌, refl, ap, List, [], ◌∷◌, Option, none, some, inl, true, arith, if◌then◌else◌}
use cs.Base.Int.{ℤ, pos, negsuc, pos_part, eqb_ℤ}
use cs.Cluster.{Link, Cluster, cluster_net, settle, read_mail}
use cs.Cluster.Proposing.{settled}
use cs.Cluster.Log.{Represents, serve_queue-Represents, all_answered}
use cs.Cluster.Ready.{IsReady, IsDelivered}
use cs.Cluster.Orders.{broadcast-IsDelivered}
use cs.Cluster.Answers.{holding}
use cs.Cluster.Phases.{Healthy}
use cs.Cluster.Repeats.{second_order_lost}
use cs.Learner.Convergence.{learn_msg}
use cs.Messages.Command.{Command}
use cs.Learner
use cs.Map.{find}
use cs.Messages.LaptopInfo.{LaptopInfo}
use cs.Messages.PaxosMsg
use cs.Scout.{Scout}
use cs.Scout.Broadcast.{broadcast, serve_queue}

abbrev no_host : List ℕ → ℤ → Option ℤ
no_host ip port = none

-- Connections 0 and 1 lead to the acceptors of the servers 0 and 1, and 2 and 3 to their learners.
abbrev wires : ℤ → Link
wires d =
    if eqb_ℤ d (pos 0)
    then record { node = pos 0; role = pos 2 }
    else if eqb_ℤ d (pos 1)
    then record { node = pos 1; role = pos 2 }
    else if eqb_ℤ d (pos 2)
    then record { node = pos 0; role = pos 3 }
    else record { node = pos 1; role = pos 3 }

abbrev pair_of_servers : Cluster
pair_of_servers = record {
  nodes = λ k. record { acceptor = Acceptor.new (pos 0); learner = settled Learner.new };
  links = wires;
  inbox = λ d. PaxosMsg.new;
  next = 4;
  time = 17;
}

abbrev connected_scout : Scout
connected_scout = record {
  factory_id = pos 0;
  acceptors = [];
  acceptor_count = 2;
  acceptor_stub_init = true;
  learner_stub_init = true;
  acceptor_stubs = (pos 0, pos 0) ∷ (pos 1, pos 1) ∷ [];
  learner_stubs = (pos 0, pos 2) ∷ (pos 1, pos 3) ∷ [];
  proposal_number = pos 0;
  slot_in = pos 1;
  smr_log = [];
  last_index = negsuc 0;
  customer_record = [];
}

abbrev laptop : ℤ → ℤ → LaptopInfo
laptop customer order = record {
  customer_id = customer;
  order_number = order;
  request_type = pos 1;
  engineer_id = pos 0;
  admin_id = negsuc 0;
}

pair-IsReady :
    IsReady (pos 0) 1 0 connected_scout (Acceptor.new (pos 0)) Learner.new pair_of_servers
unfolding Acceptor.new Learner.new find
pair-IsReady = record {
  healthy = record {
    alike = record {
      linked_acceptors =
          (refl, ((λ e. absurd (omega (arith, ap (λ x. pos_part x) e))), tt), (refl, tt, tt));
      linked_learners =
          (refl, ((λ e. absurd (omega (arith, ap (λ x. pos_part x) e))), tt), (refl, tt, tt));
      acceptors = (refl, (refl, tt));
      learners = (refl, (refl, tt));
      home = inl refl;
    };
    all = refl;
    some_acceptor = omega arith;
  };
  acceptors_connected = refl;
  learners_connected = refl;
  floor = omega arith;
  promised = omega arith;
  number = omega arith;
  slot_out = refl;
  free = λ k above. refl;
  cursor = inl refl;
  decided = inl refl;
}

broadcast-IsDelivered_example : IsDelivered (pos 0) 1 0 (laptop (pos 7) (pos 3)) Learner.new (
    broadcast
      (cluster_net no_host (pos 0))
      1
      2
      (pos 0)
      (laptop (pos 7) (pos 3))
      connected_scout
      pair_of_servers)
broadcast-IsDelivered_example =
    broadcast-IsDelivered no_host (pos 0) 0 0 1 0 (pos 0) (laptop (pos 7) (pos 3)) connected_scout
      (Acceptor.new (pos 0)) Learner.new pair_of_servers (omega arith) (omega arith) pair-IsReady

abbrev two_orders : List LaptopInfo
two_orders = laptop (pos 7) (pos 3) ∷ laptop (pos 8) (pos 1) ∷ []

pair-Represents : Represents (pos 0) 0 [] connected_scout (settle pair_of_servers)
unfolding Learner.new Learner.serve read_mail settle
pair-Represents = record {
  acceptor = Acceptor.new (pos 0);
  learner = Learner.new;
  ready = pair-IsReady;
  log = refl;
}

serve_queue-Represents_example :
    (s : Scout) × (w : Cluster) × (serve_queue
        (cluster_net no_host (pos 0))
        settle
        1
        2
        (pos 0)
        (pos 0)
        two_orders
        connected_scout
        pair_of_servers
      ≡ some (all_answered (pos 0) two_orders, s, w))
    × Represents (pos 0) 2 ((pos 7, pos 3) ∷ (pos 8, pos 1) ∷ []) s (settle w)
serve_queue-Represents_example =
    serve_queue-Represents no_host (pos 0) 0 0 0 (pos 0) (pos 0) two_orders [] connected_scout
      pair_of_servers (omega arith) (omega arith) pair-Represents

second_order_lost_example :
    (cmd : Command) × (s : Scout) × (w : Cluster) × (serve_queue
        (cluster_net no_host (pos 0))
        (λ v. v)
        1
        2
        (pos 0)
        (pos 0)
        two_orders
        connected_scout
        pair_of_servers
      ≡ some (all_answered (pos 0) two_orders, s, w))
    × (cmd.customer_id ≡ pos 7)
    × (cmd.order_id ≡ pos 3)
    × (find (pos 8) s.customer_record ≡ some (pos 1))
    × Healthy
        (pos 0)
        s
        (holding s.proposal_number cmd)
        (record { state = Learner.new; mail = learn_msg cmd ∷ learn_msg cmd ∷ [] })
        w
second_order_lost_example =
    second_order_lost no_host (pos 0) 0 0 1 0 (pos 0) (pos 0) (laptop (pos 7) (pos 3))
      (laptop (pos 8) (pos 1)) connected_scout (Acceptor.new (pos 0)) Learner.new pair_of_servers
      (omega arith) (omega arith) pair-IsReady
