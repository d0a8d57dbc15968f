-- ===== src/Cluster.antt =====
-- A network of the servers of src/ServerThread.cpp: the acceptor and the learner of every server
-- behind the connections of one scout, with no message lost. An acceptor answers at once, as the scout
-- waits for it; a learner handles its messages later.
pub mod Rounds
pub mod Alike
pub mod Answers
pub mod Phases
pub mod Proposing
pub mod Ready
pub mod Orders
pub mod Log
pub mod Repeats
use cs.Acceptor
use cs.Acceptor.{Acceptor}
use cs.Base.{
  ℕ, suc, ◌+◌, ◌≡◌, Bool, true, false, Option, none, some, List, [], ◌∷◌, ◌++◌, if◌then◌else◌,
}
use cs.Base.Int.{ℤ, pos, pos_part, eqb_ℤ}
use cs.Learner
use cs.Learner.{Learner}
use cs.Map.{Map}
use cs.Messages.Command.{Command}
use cs.Messages.PaxosMsg.{PaxosMsg}
use cs.Scout.{Net}
use cs.Utilities.{generate_command_id}

-- The learner of a server, and the learn messages that were sent to it and that the thread of its
-- connection has not handled yet.
pub record Station : Type 0 where
  pub state : Learner
  pub mail : List PaxosMsg

-- What a server keeps for EngineerThread with identities 2 and 3.
pub record Node : Type 0 where
  pub acceptor : Acceptor
  pub learner : Station

-- What a connection leads to, and the identity that was sent on it.
pub record Link : Type 0 where
  pub node : ℤ
  pub role : ℤ

-- The servers, the connections by their descriptors with the message that waits on each, the next
-- descriptor, and the time in microseconds.
pub record Cluster : Type 0 where
  pub nodes : ℤ → Node
  pub links : ℤ → Link
  pub inbox : ℤ → PaxosMsg
  pub next : ℕ
  pub time : ℕ

abbrev pub set_at : {A : Type 0} → (ℤ → A) → ℤ → A → ℤ → A
set_at f k a j = if eqb_ℤ k j then a else f j

abbrev pub reply_or : PaxosMsg → Option PaxosMsg → PaxosMsg
reply_or old none = old
reply_or old (some reply) = reply

-- The loop of Learn ends for every learner that can come up; a learner stays where it would not.
abbrev pub learner_or : Learner → Option Learner → Learner
learner_or old none = old
learner_or old (some l) = l

-- A message for the acceptor of a node, on the connection `d`.
unfoldable pub to_acceptor : ℤ → ℤ → PaxosMsg → Cluster → Cluster
to_acceptor d k msg w =
    let (a, reply) = Acceptor.on_message (w.nodes k).acceptor msg in
    record w {
      nodes = set_at w.nodes k (record (w.nodes k) { acceptor = a });
      inbox = set_at w.inbox d (reply_or (w.inbox d) reply);
    }

abbrev pub posted : PaxosMsg → Station → Station
posted msg l = record l { mail = l.mail ++ msg ∷ [] }

-- A learn message for a node waits until its thread comes to it; nothing is answered.
unfoldable pub to_learner : ℤ → PaxosMsg → Cluster → Cluster
to_learner k msg w = record w {
  nodes = set_at w.nodes k (record (w.nodes k) { learner = posted msg (w.nodes k).learner });
}

-- The thread handles the messages that wait.
unfoldable pub read_mail : Station → Station
unfolding Learner.serve
read_mail l = record { state = learner_or l.state (Learner.serve l.mail l.state); mail = [] }

-- The threads of all learners handle the messages that wait.
unfoldable pub settle : Cluster → Cluster
unfolding read_mail
settle w = record w { nodes = λ k. record (w.nodes k) { learner = read_mail (w.nodes k).learner } }

unfoldable pub deliver : ℤ → PaxosMsg → Cluster → Cluster
unfolding to_acceptor to_learner
deliver d msg w =
    let link = w.links d in
    if eqb_ℤ link.role (pos 2)
    then to_acceptor d link.node msg w
    else if eqb_ℤ link.role (pos 3)
    then to_learner link.node msg w
    else w

-- `host` tells which server listens at an address, and `self` is the server of the scout.
module _ (host : List ℕ → ℤ → Option ℤ) (self : ℤ) where
  abbrev dial : Option ℤ → Cluster → Option ℤ × Cluster
  dial none w = (none, w)
  dial (some k) w = (
    some (pos w.next),
    record w {
      links = set_at w.links (pos w.next) (record { node = k; role = pos 0 });
      next = w.next + 1;
    },
  )

  unfoldable pub cluster_net : Net Cluster
  unfolding deliver generate_command_id
  cluster_net = record {
    init = λ ip port w. dial (host ip port) w;
    identify =
        λ d role w. record w { links = set_at w.links d (record (w.links d) { role = role }) };
    send = λ d msg w. (true, deliver d msg w);
    receive = λ d w. (w.inbox d, w);
    command_id = λ id w. (generate_command_id id w.time, record w { time = w.time + 1 });
    decisions = λ w. (w.nodes self).learner.state.decisions;
  }
