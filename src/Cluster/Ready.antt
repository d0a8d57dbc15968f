-- ===== src/Cluster/Ready.antt =====
-- A cluster of the servers of src/ServerThread.cpp that is ready for an order, and how an order ends.
use cs.Acceptor.{Acceptor}
use cs.Base.{
  ℕ, suc, ◌<◌, ◌^◌, ◌-◌, ◌≡◌, ◌≢◌, refl, subst, ◌∙◌, ◌⊎◌, inl, inr, true, false, none, some, arith,
}
use cs.Base.Int.{ℤ, pos, negsuc, minus_one, eqb_ℤ, eqb_ℤ_refl, ◌≤ℤ◌, ◌<ℤ◌}
use cs.Base.Word.{inc, inc_parts}
use cs.Cluster.{Cluster, Station, settle, read_mail}
use cs.Cluster.Alike.{Alike, settle-Alike}
use cs.Cluster.Answers.{holding}
use cs.Cluster.Phases.{Healthy, between-IsInt, inc-above}
use cs.Cluster.Proposing.{IsCursor, inc-pos, extended, settled, told}
use cs.Learner.{Learner}
use cs.Map.{Map, find, find-assign}
use cs.Messages.Command.{Command}
use cs.Messages.LaptopInfo.{LaptopInfo}
use cs.Scout.{Scout}
use cs.Scout.Broadcast.{Outcome, finished}

-- A cluster between two orders: the next slot is `m`, no number is above `top`, and what an
-- acceptor has accepted is decided.
pub record IsReady (self : ℤ) (m top : ℕ) (s : Scout) (a : Acceptor) (l : Learner) (w : Cluster)
    : Type 0 where
  pub healthy : Healthy self s a (settled l) w
  pub acceptors_connected : s.acceptor_stub_init ≡ true
  pub learners_connected : s.learner_stub_init ≡ true
  pub floor : minus_one ≤ℤ a.promised
  pub promised : a.promised ≤ℤ pos top
  pub number : s.proposal_number ≤ℤ pos top
  pub slot_out : l.slot_out ≡ pos m
  pub free : (k : ℤ) → pos m ≤ℤ k → find k l.decisions ≡ none
  pub cursor : IsCursor m l.decisions s.slot_in
  pub decided :
      (a.accepted ≡ minus_one) ⊎ ((c : Command) × (find a.value.slot l.decisions ≡ some c))

-- How an order ends: the command has the next slot, the acceptors hold it, and its learn message
-- waits at every learner; once the learners have handled it they have written the command, and the
-- cluster is ready for the next order.
pub record IsDelivered (self : ℤ) (m top : ℕ) (laptop : LaptopInfo) (l : Learner)
    (result : Outcome Cluster) : Type 0 where
  pub scout : Scout
  pub world : Cluster
  pub command : Command
  pub ended : result ≡ finished scout world
  pub slot : command.slot ≡ pos m
  pub customer : command.customer_id ≡ laptop.customer_id
  pub order : command.order_id ≡ laptop.order_number
  pub number : minus_one <ℤ scout.proposal_number
  pub sent : Healthy self scout (holding scout.proposal_number command) (told command l) world
  pub ready :
      IsReady self
        (suc m)
        (suc top)
        scout
        (holding scout.proposal_number command)
        (extended command l)
        (settle world)

pub find-extended :
    (cmd : Command) (l : Learner) → find cmd.slot (extended cmd l).decisions ≡ some cmd
find-extended cmd l = find-assign cmd.slot cmd.slot cmd l.decisions ∙ rw (eqb_ℤ_refl cmd.slot) refl

pub free-extended :
    (m : ℕ) (cmd : Command) (l : Learner)
    → cmd.slot ≡ pos m
    → ((k : ℤ) → pos m ≤ℤ k → find k l.decisions ≡ none)
    → (k : ℤ) → pos (suc m) ≤ℤ k
    → find k (extended cmd l).decisions ≡ none
free-extended m cmd l slot free k above =
    let other : eqb_ℤ cmd.slot k ≡ false = rw slot (ground arith) in
    find-assign cmd.slot k cmd l.decisions ∙ rw other (free k (omega arith))

inc-below :
    (x : ℤ) (top : ℕ) → top < 2 ^ 31 - 1 → minus_one ≤ℤ x → x ≤ℤ pos top → inc x ≤ℤ pos (suc top)
inc-below (pos n) top room floor h = rw (inc-pos n (omega arith)) (omega arith)
inc-below (negsuc n) top room floor h =
    omega (arith, inc_parts (negsuc n) (between-IsInt (negsuc n) floor (omega arith)) (omega arith))

pub inc-moves : (k : ℤ) (m : ℕ) → m < 2 ^ 31 - 1 → k ≡ pos m → inc k ≢ k
inc-moves k m room at e =
    absurd (
      omega
        (arith, subst (λ x. k <ℤ x) e (inc-above k (rw at (omega arith)) (rw at (omega arith)))))

pub number-below :
    (n number : ℤ) (a : Acceptor) (top : ℕ)
    → top < 2 ^ 31 - 1
    → minus_one ≤ℤ a.promised
    → a.promised ≤ℤ pos top
    → number ≤ℤ pos top
    → (n ≡ number) ⊎ (n ≡ inc a.promised)
    → n ≤ℤ pos (suc top)
number-below n number a top room floor h k (inl same) = rw same (omega arith)
number-below n number a top room floor h k (inr next) =
    rw next (inc-below a.promised top room floor h)

pub settled-Alike :
    (self : ℤ) (voters readers : Map ℤ) (a : Acceptor) (l l' : Station) (w : Cluster)
    → read_mail l ≡ l'
    → Alike self voters readers a l w.links w.nodes
    → Alike self voters readers a l' (settle w).links (settle w).nodes
settled-Alike self voters readers a l l' w e g =
    subst (λ (x : Station). Alike self voters readers a x (settle w).links (settle w).nodes) e
      (settle-Alike self voters readers a l w g)
