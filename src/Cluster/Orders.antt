-- ===== src/Cluster/Orders.antt =====
-- Orders that one factory of src/ServerThread.cpp broadcasts in a cluster with no message lost.
use cs.Acceptor.{Acceptor}
use cs.Base.{
  ℕ, suc, ◌<◌, ◌^◌, ◌-◌, ◌≡◌, refl, sym, ap, subst, ◌∙◌, inr, true, Option, some, List, arith,
}
use cs.Base.Int.{ℤ, pos}
use cs.Base.Word.{inc}
use cs.Cluster.{Cluster, cluster_net}
use cs.Cluster.Answers.{holding}
use cs.Cluster.Phases.{prepared-Healthy}
use cs.Cluster.Proposing.{
  inc-pos, extended, settled, told, read_mail-told, accept_phase-Healthy, commander-Healthy,
  is_own-Healthy, own_command-Healthy,
}
use cs.Learner.{Learner}
use cs.Map
use cs.Map.{Map, find, find-assign}
use cs.Messages.Command.{Command}
use cs.Messages.LaptopInfo.{LaptopInfo}
use cs.Scout.{Net, Scout, Tally, no_tally}
use cs.Scout.Broadcast.{
  finished, broadcast, is_own, own_command, compete, propose, after_own, finish, connect_acceptors,
  log_op,
}
use cs.Scout.Phases.{Prepared, prepare, accepted, accept_phase, commander}
use cs.Scout.Phases
use cs.Cluster.Ready.{
  IsReady, IsDelivered, find-extended, free-extended, inc-moves, number-below, settled-Alike,
}

-- The way of a broadcast that meets no obstacle.
module _ {W : Type 0} (net : Net W) where
  compete-finished :
      (jumps rounds : ℕ) (junk : ℤ) (laptop : LaptopInfo) (s : Scout) (w : W) (s₁ : Scout)
      (u : Tally) (w₁ : W) (cmd : Command) (s₂ : Scout) (w₂ w₃ w₄ : W)
      → prepare net rounds s (no_tally junk) w ≡ Phases.promised s₁ u w₁
      → is_own net u w₁ ≡ true
      → own_command net junk laptop s₁ w₁ ≡ (cmd, s₂, w₂)
      → accept_phase net s₂ cmd w₂ ≡ (accepted, s₂, w₃)
      → commander net s₂ cmd w₃ ≡ (s₂, w₄)
      → compete net (suc jumps) rounds junk laptop s w
        ≡ finished
            (record s₂ {
              customer_record =
                  Map.assign laptop.customer_id laptop.order_number s₂.customer_record;
            })
            w₄
  unfolding compete propose after_own finish
  compete-finished jumps rounds junk laptop s w s₁ u w₁ cmd s₂ w₂ w₃ w₄ phase own made accept told =
      let again = compete net jumps rounds junk laptop in
      rw (phase, own) refl
      ∙ ap
          (λ (x : Command × Scout × W).
            after_own net laptop x.0 again (accept_phase net x.1 x.0 x.2))
          made
      ∙ ap (after_own net laptop cmd again) accept
      ∙ ap (finish net laptop) told

  pub connected_before :
      (s : Scout) (w : W) → s.acceptor_stub_init ≡ true → connect_acceptors net s w ≡ (s, w)
  unfolding connect_acceptors
  connected_before s w connected = rw connected refl

module _ (host : List ℕ → ℤ → Option ℤ) (self : ℤ) where
  -- From the label on.
  compete-IsDelivered :
      (jumps rounds m top : ℕ) (junk : ℤ) (laptop : LaptopInfo) (s : Scout) (a : Acceptor)
      (l : Learner) (w : Cluster)
      → m < 2 ^ 31 - 1
      → top < 2 ^ 31 - 1
      → IsReady self m top s a l w
      → IsDelivered self m top laptop l
          (compete (cluster_net host self) (suc jumps) (suc (suc rounds)) junk laptop s w)
  compete-IsDelivered jumps rounds m top junk laptop s a l w slots numbers g =
      let net = cluster_net host self in
      let (n, u, w₁, phase, above, choice, quiet, reported, h₁) =
        prepared-Healthy host self rounds s a (settled l) junk w g.floor (omega (arith, g.promised))
          g.healthy in
      let s₁ : Scout = record s { proposal_number = n } in
      let a₁ : Acceptor = record a { promised = n } in
      let own = is_own-Healthy host self s₁ a₁ (settled l) u w₁ h₁ quiet g.decided in
      let (cmd, w₂, made, slot, customer, order, h₂) =
        own_command-Healthy host self m junk laptop s₁ a₁ (settled l) w₁ slots g.free g.cursor h₁ in
      let s₂ : Scout = record s₁ { slot_in = cmd.slot } in
      let (w₃, accept, h₃) = accept_phase-Healthy host self s₂ a₁ (settled l) cmd w₂ refl h₂ in
      let (w₄, sent_all, h₄) =
        commander-Healthy host self s₂ (holding n cmd) (settled l) cmd w₃ g.learners_connected h₃ in
      let read =
        read_mail-told cmd l (slot ∙ sym g.slot_out) (inc-moves l.slot_out m slots g.slot_out)
          (rw (g.slot_out, inc-pos m slots) (g.free (pos (suc m)) (omega arith))) in
      let s₃ : Scout = record s₂ {
        customer_record = Map.assign laptop.customer_id laptop.order_number s₂.customer_record;
      } in
      record {
        scout = s₃;
        world = w₄;
        command = cmd;
        ended =
            compete-finished net jumps (suc (suc rounds)) junk laptop s w s₁ u w₁ cmd s₂ w₂ w₃ w₄
              phase own made accept sent_all;
        slot = slot;
        customer = customer;
        order = order;
        number = omega (arith, g.floor, above);
        sent = record { alike = h₄.alike; all = h₄.all; some_acceptor = h₄.some_acceptor };
        ready = record {
          healthy = record {
            alike =
                settled-Alike self s.acceptor_stubs s.learner_stubs (holding n cmd) (told cmd l)
                  (settled (extended cmd l)) w₄ read h₄.alike;
            all = h₄.all;
            some_acceptor = h₄.some_acceptor;
          };
          acceptors_connected = g.acceptors_connected;
          learners_connected = g.learners_connected;
          floor = omega (arith, g.floor, above);
          promised =
              number-below n s.proposal_number a top numbers g.floor g.promised g.number choice;
          number =
              number-below n s.proposal_number a top numbers g.floor g.promised g.number choice;
          slot_out = ap inc g.slot_out ∙ inc-pos m slots;
          free = free-extended m cmd l slot g.free;
          cursor = inr (
            m,
            slot,
            refl,
            cmd,
            subst (λ k. find k (extended cmd l).decisions ≡ some cmd) slot (find-extended cmd l),
          );
          decided = inr (cmd, find-extended cmd l);
        };
      }

  log_op-IsReady :
      (m top : ℕ) (laptop : LaptopInfo) (s : Scout) (a : Acceptor) (l : Learner) (w : Cluster)
      → IsReady self m top s a l w
      → IsReady self m top (log_op (cluster_net host self) laptop s) a l w
  unfolding log_op
  log_op-IsReady m top laptop s a l w g = record {
    healthy = record {
      alike = g.healthy.alike;
      all = g.healthy.all;
      some_acceptor = g.healthy.some_acceptor;
    };
    acceptors_connected = g.acceptors_connected;
    learners_connected = g.learners_connected;
    floor = g.floor;
    promised = g.promised;
    number = g.number;
    slot_out = g.slot_out;
    free = g.free;
    cursor = g.cursor;
    decided = g.decided;
  }

  -- In a cluster that is ready (the scout is connected to every acceptor and learner, the acceptors
  -- are in one state and so are the learners, no learn message waits, and what the acceptors have
  -- accepted is decided), with no message lost, a broadcast ends after two rounds of the prepare phase
  -- at most, with no jump back. When it returns, its command, with the order of the laptop, has the
  -- next slot, every acceptor holds it, and its learn message waits at every learner. Once the threads
  -- of the learners have handled that message, every learner has written the command and the cluster
  -- is ready again. (The slot and the numbers are below INT_MAX.)
  pub broadcast-IsDelivered :
      (jumps rounds m top : ℕ) (junk : ℤ) (laptop : LaptopInfo) (s : Scout) (a : Acceptor)
      (l : Learner) (w : Cluster)
      → m < 2 ^ 31 - 1
      → top < 2 ^ 31 - 1
      → IsReady self m top s a l w
      → IsDelivered self m top laptop l
          (broadcast (cluster_net host self) (suc jumps) (suc (suc rounds)) junk laptop s w)
  unfolding broadcast
  broadcast-IsDelivered jumps rounds m top junk laptop s a l w slots numbers g =
      let net = cluster_net host self in
      subst
        (λ (x : Scout × Cluster).
          IsDelivered self m top laptop l
            (compete net (suc jumps) (suc (suc rounds)) junk laptop (log_op net laptop x.0) x.1))
        (sym (connected_before net s w g.acceptors_connected))
        (compete-IsDelivered jumps rounds m top junk laptop (log_op net laptop s) a l w slots
          numbers (log_op-IsReady m top laptop s a l w g))
