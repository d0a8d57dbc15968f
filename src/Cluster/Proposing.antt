-- ===== src/Cluster/Proposing.antt =====
-- The accept phase, the learn messages and the factory's own command (src/ServerThread.cpp) in a
-- cluster with no message lost.
use cs.Acceptor.{Acceptor}
use cs.Base.{
  ℕ, zero, suc, ◌+◌, ◌/◌, ◌<◌, ◌^◌, ◌-◌, ◌≡◌, ◌≢◌, refl, sym, ap, subst, ◌∙◌, ◌⊎◌, inl, inr, true,
  false, Option, none, some, List, [], ◌∷◌, ◌++◌, arith, leb, ◌==◌,
}
use cs.Base.Int.{ℤ, pos, minus_one, ◌≤ℤ◌, ◌<ℤ◌, eqb_ℤ}
use cs.Base.Word.{inc, IsInt, to_u32, of_u32}
use cs.Cluster.{Cluster, Station, cluster_net, posted, read_mail, learner_or}
use cs.Cluster.Alike.{
  AllNodes-IsBehind, round-Alike, acceptors-Alike, learners-Alike, answers-same_from, agreeing-all,
}
use cs.Cluster.Answers.{accept_msg, holding, accept_reply, on_message-accept, agrees-accept_reply}
use cs.Cluster.Phases.{Healthy, Quiet}
use cs.Cluster.Rounds.{deliver_all, same_from, tell-deliver_all}
use cs.Learner
use cs.Learner.{Learner}
use cs.Learner.Convergence.{learn_msg, serve-learn_msg}
use cs.Learner.Gaps.{learn_next}
use cs.Map
use cs.Map.{Map, find, find-assign}
use cs.Map.Slots.{max_int, advance, IsFirstFree}
use cs.Messages.Command.{Command}
use cs.Messages.LaptopInfo.{LaptopInfo}
use cs.Scout.{Scout, Tally, count_accept}
use cs.Scout.Broadcast.{is_own, own_command}
use cs.Scout.Counting.{count_accept_lem}
use cs.Scout.Phases.{accepted, verdict, accept_round, accept_phase, commander, connect_learners}
use cs.Scout.Slots.{own_command-IsFirstFree}

-- A learner that has written one more command.
abbrev pub extended : Command → Learner → Learner
extended cmd l = record {
  decisions = Map.assign cmd.slot cmd l.decisions;
  slot_out = inc l.slot_out;
  log = l.log ++ (l.slot_out, cmd) ∷ [];
}

-- A learner for which no message waits, and one for which a learn message does.
abbrev pub settled : Learner → Station
settled l = record { state = l; mail = [] }

abbrev pub told : Command → Learner → Station
told cmd l = record { state = l; mail = learn_msg cmd ∷ [] }

pub read_mail-told :
    (cmd : Command) (l : Learner)
    → cmd.slot ≡ l.slot_out
    → inc l.slot_out ≢ l.slot_out
    → find (inc l.slot_out) l.decisions ≡ none
    → read_mail (told cmd l) ≡ settled (extended cmd l)
unfolding read_mail Learner.serve
read_mail-told cmd l here moves free =
    let served : Learner.serve (learn_msg cmd ∷ []) l ≡ some (extended cmd l) =
      serve-learn_msg cmd [] l (extended cmd l) (learn_next cmd l here moves free) in
    ap (λ (r : Option Learner). settled (learner_or l r)) served

-- slot_in stands at the next slot, or at a decided one just before it.
abbrev pub IsCursor : ℕ → Map Command → ℤ → Type 0
IsCursor m decisions slot =
    (slot ≡ pos m)
    ⊎ ((j : ℕ) × (slot ≡ pos j) × (m ≡ suc j) × (c : Command) × (find (pos j) decisions ≡ some c))

pub inc-pos : (n : ℕ) → n < 2 ^ 31 - 1 → inc (pos n) ≡ pos (suc n)
unfolding inc to_u32 of_u32
inc-pos n h = ground arith

IsCursor-next :
    (m : ℕ) (decisions : Map Command) (slot next : ℤ)
    → m < 2 ^ 31 - 1
    → find (pos m) decisions ≡ none
    → IsCursor m decisions slot
    → IsFirstFree decisions slot next
    → next ≡ pos m
unfolding advance
IsCursor-next m decisions slot next room free (inl here) (zero, at, no_decision, before) = at ∙ here
IsCursor-next m decisions slot next room free (inl here) (suc n, at, no_decision, before) =
    absurd (before 0 (omega arith) (rw here free))
IsCursor-next m decisions slot next room free (inr (j, here, e, c, decided))
      (zero, at, no_decision, before) =
    absurd (cc)
IsCursor-next m decisions slot next room free (inr (j, here, e, c, decided))
      (suc zero, at, no_decision, before) =
    at ∙ ap inc here ∙ inc-pos j (omega (arith, e)) ∙ ap pos (sym e)
IsCursor-next m decisions slot next room free (inr (j, here, e, c, decided))
      (suc (suc n), at, no_decision, before) =
    absurd (
      before 1 (omega arith) (
        ap (λ k. find k decisions) (ap inc here ∙ inc-pos j (omega (arith, e)) ∙ ap pos (sym e))
        ∙ free))

cursor-IsInt :
    (m : ℕ) (decisions : Map Command) (slot : ℤ)
    → m < 2 ^ 31 - 1
    → IsCursor m decisions slot
    → IsInt slot
cursor-IsInt m decisions slot room (inl here) = rw here (omega arith, omega arith)
cursor-IsInt m decisions slot room (inr (j, here, e, c, decided)) =
    rw here (omega (arith, e), omega arith)

module _ (host : List ℕ → ℤ → Option ℤ) (self : ℤ) where
  -- Acceptors that have promised the number all accept.
  pub accept_phase-Healthy :
      (s : Scout) (a : Acceptor) (l : Station) (cmd : Command) (w : Cluster)
      → a.promised ≡ s.proposal_number
      → Healthy self s a l w
      → (w' : Cluster) × (accept_phase (cluster_net host self) s cmd w ≡ (accepted, s, w'))
        × Healthy self s (holding s.proposal_number cmd) l w'
  unfolding accept_phase accept_round verdict
  accept_phase-Healthy s a l cmd w promised h =
      let msg = accept_msg s.proposal_number cmd in
      let w' = deliver_all msg s.acceptor_stubs w in
      let step = on_message-accept a s.proposal_number cmd promised in
      let all_agree = agreeing-all accept_reply s.acceptor_stubs agrees-accept_reply in
      let all_answer = answers-same_from accept_reply s.acceptor_stubs in
      let active : leb (0 + s.acceptor_count) (s.acceptor_count / 2) ≡ false =
        ground (arith, h.some_acceptor) in
      let any : ((0 + s.acceptor_count) == 0) ≡ false = ground (arith, h.some_acceptor) in
      (
        w',
        rw
            (
              round-Alike host self s.acceptor_stubs s.learner_stubs a l msg accept_reply
                  count_accept (0, 0) w (ap (λ x. x.1) step) h.alike,
              count_accept_lem 0 0 (same_from s.acceptor_stubs accept_reply),
              all_agree,
              all_answer,
              h.all,
              active,
              any,
            )
            refl,
        record {
          alike =
              acceptors-Alike self s.acceptor_stubs s.learner_stubs a
                (holding s.proposal_number cmd) l msg w (ap (λ x. x.0) step) h.alike;
          all = h.all;
          some_acceptor = h.some_acceptor;
        },
      )

  -- The message with the command waits at every learner.
  pub commander-Healthy :
      (s : Scout) (a : Acceptor) (l : Station) (cmd : Command) (w : Cluster)
      → s.learner_stub_init ≡ true
      → Healthy self s a l w
      → (w' : Cluster) × (commander (cluster_net host self) s cmd w ≡ (s, w'))
        × Healthy self s a (posted (learn_msg cmd) l) w'
  unfolding commander connect_learners
  commander-Healthy s a l cmd w connected h =
      let msg = learn_msg cmd in
      let w' = deliver_all msg s.learner_stubs w in
      (
        w',
        rw (connected, tell-deliver_all host self msg s.learner_stubs s.acceptor_stubs w) refl,
        record {
          alike = learners-Alike self s.acceptor_stubs s.learner_stubs a l msg w h.alike;
          all = h.all;
          some_acceptor = h.some_acceptor;
        },
      )

  -- What the factory's thread reads in decisionMap.
  own_decisions :
      (s : Scout) (a : Acceptor) (l : Station) (w : Cluster)
      → Healthy self s a l w
      → (w.nodes self).learner ≡ l
  own_decisions s a l w h =
      AllNodes-IsBehind (λ n. n.learner ≡ l) self w.links w.nodes s.learner_stubs h.alike.home
        h.alike.learners

  pub is_own-Healthy :
      (s : Scout) (a : Acceptor) (l : Station) (u : Tally) (w : Cluster)
      → Healthy self s a l w
      → Quiet a u
      → (a.accepted ≡ minus_one) ⊎ ((c : Command) × (find a.value.slot l.state.decisions ≡ some c))
      → is_own (cluster_net host self) u w ≡ true
  unfolding is_own cluster_net
  is_own-Healthy s a l u w h (inl none_reported) freed = rw none_reported refl
  is_own-Healthy s a l u w h (inr (best, command)) (inl nothing) = rw (best, nothing) refl
  is_own-Healthy s a l u w h (inr (best, command)) (inr (c, decided)) =
      rw (own_decisions s a l w h, command, decided) (ground arith)

  -- A command that was reported, and that the factory's own learner has not decided.
  pub is_own-reported :
      (s : Scout) (a : Acceptor) (l : Station) (u : Tally) (w : Cluster)
      → Healthy self s a l w
      → minus_one <ℤ u.best
      → u.command ≡ a.value
      → find a.value.slot l.state.decisions ≡ none
      → is_own (cluster_net host self) u w ≡ false
  unfolding is_own cluster_net
  is_own-reported s a l u w h reported command undecided =
      let some_number : eqb_ℤ u.best minus_one ≡ false = ground arith in
      rw (own_decisions s a l w h, command, some_number, undecided) refl

  -- The factory's own command is for the next slot.
  pub own_command-Healthy :
      (m : ℕ) (junk : ℤ) (laptop : LaptopInfo) (s : Scout) (a : Acceptor) (l : Station)
      (w : Cluster)
      → m < 2 ^ 31 - 1
      → ((k : ℤ) → pos m ≤ℤ k → find k l.state.decisions ≡ none)
      → IsCursor m l.state.decisions s.slot_in
      → Healthy self s a l w
      → (cmd : Command) × (w' : Cluster) × (own_command (cluster_net host self) junk laptop s w
          ≡ (cmd, record s { slot_in = cmd.slot }, w'))
        × (cmd.slot ≡ pos m)
        × (cmd.customer_id ≡ laptop.customer_id)
        × (cmd.order_id ≡ laptop.order_number)
        × Healthy self (record s { slot_in = cmd.slot }) a l w'
  unfolding own_command cluster_net
  own_command-Healthy m junk laptop s a l w room free cursor h =
      let net = cluster_net host self in
      let own = own_decisions s a l w h in
      let made = own_command net junk laptop s w in
      let (first, moved, customer, order) =
        own_command-IsFirstFree net junk laptop s w
          (cursor-IsInt m l.state.decisions s.slot_in room cursor)
          (rw own (free max_int (omega arith))) in
      let slot : made.0.slot ≡ pos m =
        IsCursor-next m l.state.decisions s.slot_in made.0.slot room (free (pos m) (omega arith))
          cursor
          (subst (λ (n : Station). IsFirstFree n.state.decisions s.slot_in made.0.slot) own
            first) in
      (
        made.0,
        made.2,
        ap (λ (k : ℤ). (made.0, record s { slot_in = k }, made.2)) moved,
        slot,
        customer,
        order,
        record { alike = h.alike; all = h.all; some_acceptor = h.some_acceptor },
      )
