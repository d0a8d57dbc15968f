-- ===== src/Cluster/Repeats.antt =====
-- An order that src/ServerThread.cpp takes before the learners have handled the last one.
use cs.Acceptor.{Acceptor}
use cs.Base.{
  ℕ, suc, ◌<◌, ◌^◌, ◌-◌, ◌≡◌, refl, sym, ap, subst, ◌∙◌, inl, inr, true, false, Option, some, none,
  List, [], ◌∷◌, arith,
}
use cs.Base.Int.{ℤ, minus_one, eqb_ℤ_refl, ◌≤ℤ◌, ◌<ℤ◌}
use cs.Cluster.{Cluster, Station, cluster_net, posted}
use cs.Cluster.Answers.{holding}
use cs.Cluster.Log.{all_answered}
use cs.Cluster.Ready.{IsReady}
use cs.Cluster.Orders.{broadcast-IsDelivered, connected_before}
use cs.Cluster.Phases.{Healthy, Quiet, prepared-Healthy}
use cs.Cluster.Proposing.{accept_phase-Healthy, commander-Healthy, is_own-reported, told}
use cs.Learner.{Learner}
use cs.Learner.Convergence.{learn_msg}
use cs.Map
use cs.Map.{find, find-assign}
use cs.Map.Slots.{max_int}
use cs.Messages.Command.{Command}
use cs.Messages.LaptopInfo.{LaptopInfo}
use cs.Scout.{Net, Scout, Tally, no_tally}
use cs.Scout.Broadcast.{
  Outcome, finished, broadcast, is_own, compete, propose, after_other, finish, log_op, serve_queue,
  answer,
}
use cs.Scout.Phases.{prepare, accepted, accept_phase, commander}
use cs.Scout.Phases

-- What has been reported is what the acceptors have accepted.
Quiet-command : (a : Acceptor) (u : Tally) → Quiet a u → minus_one <ℤ u.best → u.command ≡ a.value
Quiet-command a u (inl none_yet) h = absurd (omega (arith, subst (λ x. minus_one <ℤ x) none_yet h))
Quiet-command a u (inr (best, command)) h = command

-- The way of a broadcast that proposes a reported command.
module _ {W : Type 0} (net : Net W) where
  compete-reported :
      (jumps rounds : ℕ) (junk : ℤ) (laptop : LaptopInfo) (s : Scout) (w : W) (s₁ : Scout)
      (u : Tally) (w₁ : W) (cmd : Command) (w₂ w₃ : W)
      → prepare net rounds s (no_tally junk) w ≡ Phases.promised s₁ u w₁
      → is_own net u w₁ ≡ false
      → u.command ≡ cmd
      → accept_phase net s₁ cmd w₁ ≡ (accepted, s₁, w₂)
      → commander net s₁ cmd w₂ ≡ (s₁, w₃)
      → compete net (suc jumps) rounds junk laptop s w ≡ finish net laptop (s₁, w₃)
  unfolding compete propose after_other
  compete-reported jumps rounds junk laptop s w s₁ u w₁ cmd w₂ w₃ phase other reported accept
        spread =
      let again = compete net jumps rounds junk laptop in
      rw (phase, other) refl
      ∙ ap (λ (c : Command). after_other net laptop c again (accept_phase net s₁ c w₁)) reported
      ∙ ap (after_other net laptop cmd again) accept
      ∙ ap (finish net laptop) spread

-- How such a broadcast ends.
record IsRepeated (self : ℤ) (laptop : LaptopInfo) (cmd : Command) (l : Station)
    (result : Outcome Cluster) : Type 0 where
  scout : Scout
  world : Cluster
  ended : result ≡ finished scout world
  record_kept : find laptop.customer_id scout.customer_record ≡ some laptop.order_number
  sent : Healthy self scout (holding scout.proposal_number cmd) (posted (learn_msg cmd) l) world

module _ (host : List ℕ → ℤ → Option ℤ) (self : ℤ) where
  compete-IsRepeated :
      (jumps rounds : ℕ) (junk : ℤ) (laptop : LaptopInfo) (s : Scout) (a : Acceptor) (l : Station)
      (w : Cluster)
      → s.learner_stub_init ≡ true
      → minus_one ≤ℤ a.promised
      → a.promised <ℤ max_int
      → minus_one <ℤ a.accepted
      → find a.value.slot l.state.decisions ≡ none
      → Healthy self s a l w
      → IsRepeated self laptop a.value l
          (compete (cluster_net host self) (suc jumps) (suc (suc rounds)) junk laptop s w)
  unfolding finish
  compete-IsRepeated jumps rounds junk laptop s a l w connected floor room held undecided h =
      let net = cluster_net host self in
      let (n, u, w₁, phase, above, choice, quiet, reported, h₁) =
        prepared-Healthy host self rounds s a l junk w floor room h in
      let s₁ : Scout = record s { proposal_number = n } in
      let a₁ : Acceptor = record a { promised = n } in
      let command = Quiet-command a u quiet (omega (arith, held, reported)) in
      let other =
        is_own-reported host self s₁ a₁ l u w₁ h₁ (omega (arith, held, reported)) command
          undecided in
      let (w₂, accept, h₂) = accept_phase-Healthy host self s₁ a₁ l a.value w₁ refl h₁ in
      let (w₃, sent_all, h₃) =
        commander-Healthy host self s₁ (holding n a.value) l a.value w₂ connected h₂ in
      record {
        scout = record s₁ {
          customer_record = Map.assign laptop.customer_id laptop.order_number s₁.customer_record;
        };
        world = w₃;
        ended =
            compete-reported net jumps (suc (suc rounds)) junk laptop s w s₁ u w₁ a.value w₂ w₃
              phase other command accept sent_all;
        record_kept =
            find-assign laptop.customer_id laptop.customer_id laptop.order_number s₁.customer_record
            ∙ rw (eqb_ℤ_refl laptop.customer_id) refl;
        sent = record { alike = h₃.alike; all = h₃.all; some_acceptor = h₃.some_acceptor };
      }

  broadcast-IsRepeated :
      (jumps rounds : ℕ) (junk : ℤ) (laptop : LaptopInfo) (s : Scout) (a : Acceptor) (l : Station)
      (w : Cluster)
      → s.acceptor_stub_init ≡ true
      → s.learner_stub_init ≡ true
      → minus_one ≤ℤ a.promised
      → a.promised <ℤ max_int
      → minus_one <ℤ a.accepted
      → find a.value.slot l.state.decisions ≡ none
      → Healthy self s a l w
      → IsRepeated self laptop a.value l
          (broadcast (cluster_net host self) (suc jumps) (suc (suc rounds)) junk laptop s w)
  unfolding broadcast log_op
  broadcast-IsRepeated jumps rounds junk laptop s a l w acceptors learners floor room held undecided
        h =
      let net = cluster_net host self in
      subst
        (λ (x : Scout × Cluster).
          IsRepeated self laptop a.value l
            (compete net (suc jumps) (suc (suc rounds)) junk laptop (log_op net laptop x.0) x.1))
        (sym (connected_before net s w acceptors))
        (compete-IsRepeated jumps rounds junk laptop (log_op net laptop s) a l w learners floor room
          held undecided (record { alike = h.alike; all = h.all; some_acceptor = h.some_acceptor }))

  -- ScoutBrocasting does not wait for the learners. If the second of two orders is taken before any
  -- learner has handled the learn message of the first, in a cluster that was ready and loses no
  -- message, both orders are answered with the factory's id as their admin, and the record of the
  -- second customer has the second order; but every acceptor holds the command of the first order,
  -- and the only messages that wait at the learners are two with that command. (The slot and the
  -- numbers are below INT_MAX.)
  pub second_order_lost :
      (jumps rounds m top : ℕ) (junk id : ℤ) (first second : LaptopInfo) (s : Scout) (a : Acceptor)
      (l : Learner) (w : Cluster)
      → m < 2 ^ 31 - 1
      → top < 2 ^ 31 - 2
      → IsReady self m top s a l w
      → (cmd : Command) × (s' : Scout) × (w' : Cluster) × (serve_queue
            (cluster_net host self)
            (λ v. v)
            (suc jumps)
            (suc (suc rounds))
            junk
            id
            (first ∷ second ∷ [])
            s
            w
          ≡ some (all_answered id (first ∷ second ∷ []), s', w'))
        × (cmd.customer_id ≡ first.customer_id)
        × (cmd.order_id ≡ first.order_number)
        × (find second.customer_id s'.customer_record ≡ some second.order_number)
        × Healthy self s'
            (holding s'.proposal_number cmd)
            (record { state = l; mail = learn_msg cmd ∷ learn_msg cmd ∷ [] })
            w'
  unfolding serve_queue answer
  second_order_lost jumps rounds m top junk id first second s a l w slots numbers g =
      let d =
        broadcast-IsDelivered host self jumps rounds m top junk first s a l w slots (omega arith)
          g in
      let e =
        broadcast-IsRepeated jumps rounds junk second d.scout
          (holding d.scout.proposal_number d.command) (told d.command l) d.world
          d.ready.acceptors_connected d.ready.learners_connected d.ready.floor
          (omega (arith, d.ready.promised)) d.number
          (g.free d.command.slot (rw d.slot (omega arith))) d.sent in
      (
        d.command,
        e.scout,
        e.world,
        rw (d.ended, e.ended) refl,
        d.customer,
        d.order,
        e.record_kept,
        e.sent,
      )
