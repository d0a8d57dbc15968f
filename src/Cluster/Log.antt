-- ===== src/Cluster/Log.antt =====
-- The servers of src/ServerThread.cpp as one list of orders that only grows.
use cs.Acceptor.{Acceptor}
use cs.Base.{
  ℕ, suc, ◌+◌, ◌<◌, ◌^◌, ◌-◌, ◌≡◌, refl, sym, ap, subst, ◌∙◌, Option, some, List, [], ◌∷◌, ◌++◌,
  length, length-append, append_assoc, append-nil, arith,
}
use cs.Base.Int.{ℤ, pos}
use cs.Cluster.{Cluster, cluster_net, settle}
use cs.Cluster.Answers.{holding}
use cs.Cluster.Ready.{IsReady, IsDelivered}
use cs.Cluster.Orders.{broadcast-IsDelivered}
use cs.Cluster.Proposing.{extended}
use cs.Learner.{Learner}
use cs.Messages.Command.{Command}
use cs.Messages.LaptopInfo
use cs.Messages.LaptopInfo.{LaptopInfo}
use cs.Scout.{Scout}
use cs.Scout.Broadcast.{Outcome, finished, answer, serve_queue}

-- An order: its customer and its number.
abbrev pub Order : Type 0
Order = ℤ × ℤ

abbrev pub order_of : LaptopInfo → Order
order_of laptop = (laptop.customer_id, laptop.order_number)

abbrev pub orders_of : List LaptopInfo → List Order
orders_of [] = []
orders_of (laptop ∷ queue) = order_of laptop ∷ orders_of queue

-- The orders of a log file, each with the slot that was written with it.
abbrev pub log_entries : List (ℤ × Command) → List (ℤ × Order)
log_entries [] = []
log_entries ((slot, cmd) ∷ log) = (slot, (cmd.customer_id, cmd.order_id)) ∷ log_entries log

abbrev pub numbered : ℕ → List Order → List (ℤ × Order)
numbered m [] = []
numbered m (o ∷ orders) = (pos m, o) ∷ numbered (suc m) orders

log_entries-append :
    (xs ys : List (ℤ × Command)) → log_entries (xs ++ ys) ≡ log_entries xs ++ log_entries ys
log_entries-append [] ys = refl
log_entries-append (x ∷ xs) ys =
    ap (λ (rest : List (ℤ × Order)). (x.0, (x.1.customer_id, x.1.order_id)) ∷ rest)
      (log_entries-append xs ys)

numbered-append :
    (m : ℕ) (orders : List Order) (o : Order)
    → numbered m (orders ++ o ∷ []) ≡ numbered m orders ++ (pos (m + length orders), o) ∷ []
numbered-append m [] o = ap (λ (k : ℕ). (pos k, o) ∷ []) (omega arith)
numbered-append m (first ∷ orders) o =
    ap (λ (rest : List (ℤ × Order)). (pos m, first) ∷ rest)
      (numbered-append (suc m) orders o
        ∙ ap (λ (k : ℕ). numbered (suc m) orders ++ (pos k, o) ∷ []) (omega arith))

-- The cluster stands for a list of orders: it is ready for the slot behind them, and the log of every
-- learner has them in their order, from slot 1 on.
pub record Represents (self : ℤ) (top : ℕ) (orders : List Order) (s : Scout) (w : Cluster)
    : Type 0 where
  pub acceptor : Acceptor
  pub learner : Learner
  pub ready : IsReady self (suc (length orders)) top s acceptor learner w
  pub log : log_entries learner.log ≡ numbered 1 orders

-- What the engineers get for the orders of a queue.
abbrev pub all_answered : ℤ → List LaptopInfo → List LaptopInfo
all_answered id [] = []
all_answered id (laptop ∷ queue) = LaptopInfo.set_admin_id laptop id ∷ all_answered id queue

Represents-append :
    (self : ℤ) (top : ℕ) (orders : List Order) (laptop : LaptopInfo) (s : Scout) (w : Cluster)
    (r : Outcome Cluster)
    → (g : Represents self top orders s (settle w))
    → (d : IsDelivered self (suc (length orders)) top laptop g.learner r)
    → Represents self (suc top) (orders ++ order_of laptop ∷ []) d.scout (settle d.world)
Represents-append self top orders laptop s w r g d =
    let next : pos (suc (length orders)) ≡ pos (1 + length orders) = ap pos (omega arith) in
    record {
      acceptor = holding d.scout.proposal_number d.command;
      learner = extended d.command g.learner;
      ready =
          subst
            (λ (m : ℕ).
              IsReady self m (suc top) d.scout (holding d.scout.proposal_number d.command)
                (extended d.command g.learner) (settle d.world))
            (omega (arith, length-append orders (order_of laptop ∷ []))) d.ready;
      log =
          log_entries-append g.learner.log ((g.learner.slot_out, d.command) ∷ [])
          ∙ rw (g.log, g.ready.slot_out, d.customer, d.order, next) refl
          ∙ sym (numbered-append 1 orders (order_of laptop));
    }

module _ (host : List ℕ → ℤ → Option ℤ) (self : ℤ) where
  answer-finished :
      (id : ℤ) (laptop : LaptopInfo) (s : Scout) (w : Cluster)
      → answer (cluster_net host self) id laptop (finished s w)
        ≡ some (LaptopInfo.set_admin_id laptop id, s, w)
  unfolding answer
  answer-finished id laptop s w = refl

  -- The thread of a factory implements a list of orders that only grows, in a cluster whose messages
  -- all arrive, to whose servers the scout is connected, and whose learners handle the messages that
  -- wait before the thread takes the next order (`settle`). If the cluster then stands for a list of
  -- orders, the queue is served to its end, each order is answered with the factory's id as its admin,
  -- and the cluster, its learners done, stands for the list with the orders of the queue behind it, in
  -- their order. (There is room for the queue below INT_MAX.)
  pub serve_queue-Represents :
      (jumps rounds top : ℕ) (junk id : ℤ) (queue : List LaptopInfo) (orders : List Order)
      (s : Scout) (w : Cluster)
      → length orders + length queue < 2 ^ 31 - 1
      → top + length queue < 2 ^ 31
      → Represents self top orders s (settle w)
      → (s' : Scout) × (w' : Cluster) × (serve_queue
            (cluster_net host self)
            settle
            (suc jumps)
            (suc (suc rounds))
            junk
            id
            queue
            s
            w
          ≡ some (all_answered id queue, s', w'))
        × Represents self (top + length queue) (orders ++ orders_of queue) s' (settle w')
  unfolding serve_queue answer
  serve_queue-Represents jumps rounds top junk id [] orders s w slots numbers g = (
    s,
    w,
    refl,
    subst (λ (os : List Order). Represents self (top + 0) os s (settle w)) (sym (append-nil orders))
        (subst (λ (t : ℕ). Represents self t orders s (settle w)) (omega arith) g),
  )
  serve_queue-Represents jumps rounds top junk id (laptop ∷ queue) orders s w slots numbers g =
      let d =
        broadcast-IsDelivered host self jumps rounds (suc (length orders)) top junk laptop s
          g.acceptor g.learner (settle w) (omega arith) (omega arith) g.ready in
      let (s', w', served, after) =
        serve_queue-Represents jumps rounds (suc top) junk id queue (orders ++ order_of laptop ∷ [])
          d.scout d.world (omega (arith, length-append orders (order_of laptop ∷ []))) (omega arith)
          (Represents-append self top orders laptop s w _ g d) in
      (
        s',
        w',
        rw (d.ended, served) refl,
        subst (λ (os : List Order). Represents self (top + suc (length queue)) os s' (settle w'))
            (append_assoc orders (order_of laptop ∷ []) (orders_of queue))
            (subst
              (λ (t : ℕ).
                Represents self t ((orders ++ order_of laptop ∷ []) ++ orders_of queue) s'
                  (settle w'))
              (omega arith) after),
      )
