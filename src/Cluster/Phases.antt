-- ===== src/Cluster/Phases.antt =====
-- The phases of a broadcast (src/ServerThread.cpp) among acceptors that are all in one state.
use cs.Acceptor
use cs.Acceptor.{Acceptor}
use cs.Acceptor.Promises.{promise_reports}
use cs.Base.{
  ℕ, suc, ◌<◌, ◌≡◌, refl, sym, ap, ◌∙◌, ◌⊎◌, inl, inr, true, false, Option, some, List, [], ◌∷◌,
  All, length, Bool-cases, arith,
}
use cs.Base.Int.{ℤ, pos, negsuc, pos_part, neg_part, minus_one, ltb_ℤ, ◌≤ℤ◌, ◌<ℤ◌}
use cs.Base.Word.{inc, IsInt}
use cs.Cluster.{Station, Cluster, cluster_net}
use cs.Cluster.Alike.{
  Alike, round-Alike, acceptors-Alike, answers-same_from, agreeing-all, agreeing-none,
}
use cs.Cluster.Answers.{
  prepare_msg, on_message-promise, on_message-refusal, agrees-promise, agrees-refusal,
  number-refusal, Reported-same_from, highest-same_from,
}
use cs.Cluster.Rounds.{deliver_all, same_from}
use cs.Map.Slots.{max_int, inc-lt}
use cs.Agreement.Sites.{promise_top}
use cs.Map.{Map}
use cs.Messages.PaxosMsg.{PaxosMsg}
use cs.Scout.{Scout, Tally, no_tally, count_promise}
use cs.Scout.Counting.{count_all, count_promise-Counted, NoneAbove}
use cs.Scout.Phases.{is_majority, promised, prepare_round, prepare}

-- A scout with a stub for each of its acceptors, all of them in the state `a`.
pub record Healthy (self : ℤ) (s : Scout) (a : Acceptor) (l : Station) (w : Cluster) : Type 0 where
  pub alike : Alike self s.acceptor_stubs s.learner_stubs a l w.links w.nodes
  pub all : length s.acceptor_stubs ≡ s.acceptor_count
  pub some_acceptor : 0 < s.acceptor_count

-- What a tally has of acceptors that have accepted one command at most.
abbrev pub Quiet : Acceptor → Tally → Type 0
Quiet a t = (t.best ≡ minus_one) ⊎ ((t.best ≡ a.accepted) × (t.command ≡ a.value))

-- The tally after the same answer from every acceptor, and the world.
abbrev tally_after : Scout → PaxosMsg → Tally → Tally
tally_after s r t = count_all count_promise t (same_from s.acceptor_stubs r)

abbrev pub asked : Scout → Cluster → Cluster
asked s w = deliver_all (prepare_msg s.proposal_number) s.acceptor_stubs w

pub between-IsInt : (x : ℤ) → minus_one ≤ℤ x → x <ℤ max_int → IsInt x
between-IsInt (pos n) floor room = (omega arith, omega arith)
between-IsInt (negsuc n) floor room = (omega arith, omega arith)

pub inc-above : (x : ℤ) → minus_one ≤ℤ x → x <ℤ max_int → x <ℤ inc x
inc-above x floor room =
    inc-lt x (between-IsInt x floor room)
      (λ e. absurd (omega (arith, ap (λ y. pos_part y) e, ap (λ y. neg_part y) e)))

NoneAbove-same_from :
    (best : ℤ) (r : PaxosMsg) (stubs : Map ℤ)
    → 0 < length stubs
    → All (NoneAbove best) (same_from stubs r)
    → NoneAbove best (some r)
NoneAbove-same_from best r [] some_stub h = absurd (omega arith)
NoneAbove-same_from best r (e ∷ stubs) some_stub h = h.0

module _ (host : List ℕ → ℤ → Option ℤ) (self : ℤ) where
  prepare_round-Healthy :
      (s : Scout) (a : Acceptor) (l : Station) (r : PaxosMsg) (t : Tally) (w : Cluster)
      → (Acceptor.on_message a (prepare_msg s.proposal_number)).1 ≡ some r
      → Healthy self s a l w
      → prepare_round (cluster_net host self) s t w ≡ record {
        stubs = s.acceptor_stubs;
        others = s.learner_stubs;
        tally = tally_after s r t;
        world = asked s w;
      }
  unfolding prepare_round
  prepare_round-Healthy s a l r t w handled h =
      round-Alike host self s.acceptor_stubs s.learner_stubs a l (prepare_msg s.proposal_number) r
        count_promise t w handled h.alike

  Quiet-promise :
      (s : Scout) (a : Acceptor) (t : Tally)
      → t.best ≡ minus_one
      → Quiet a (tally_after s (Acceptor.promise a) t)
  Quiet-promise s a t none_yet =
      let rs = same_from s.acceptor_stubs (Acceptor.promise a) in
      let u = tally_after s (Acceptor.promise a) t in
      elim (count_promise-Counted t rs).chosen [
        | inl (best, command) ↦ inl (best ∙ none_yet)
        | inr reported ↦
            let (agree, best, command) =
              Reported-same_from u.best u.command (Acceptor.promise a) s.acceptor_stubs reported in
            elim (promise_reports a) [
              | inl (nothing, e) ↦ inl (sym best ∙ e)
              | inr (e, value) ↦ inr (sym best ∙ e, sym command ∙ value)
            ]
      ]

  -- The promises report no smaller number than the acceptors have accepted.
  best_reported :
      (s : Scout) (a : Acceptor) (t : Tally)
      → length s.acceptor_stubs ≡ s.acceptor_count
      → 0 < s.acceptor_count
      → a.accepted ≤ℤ (tally_after s (Acceptor.promise a) t).best
  best_reported s a t all some_acceptor =
      let r = Acceptor.promise a in
      let u = tally_after s r t in
      let c = count_promise-Counted t (same_from s.acceptor_stubs r) in
      let below =
        NoneAbove-same_from u.best r s.acceptor_stubs (omega (arith, all, some_acceptor))
          c.none_above (agrees-promise a) in
      omega (arith, below, promise_top a)

  still_none :
      (s : Scout) (a : Acceptor) (t : Tally)
      → t.best ≡ minus_one
      → (tally_after s (Acceptor.refusal a) t).best ≡ minus_one
  still_none s a t none_yet =
      let rs = same_from s.acceptor_stubs (Acceptor.refusal a) in
      let u = tally_after s (Acceptor.refusal a) t in
      elim (count_promise-Counted t rs).chosen [
        | inl (best, command) ↦ best ∙ none_yet
        | inr reported ↦
            let (agree, best, command) =
              Reported-same_from u.best u.command (Acceptor.refusal a) s.acceptor_stubs reported in
            cc (agrees-refusal a)
      ]

  -- A number above all promises: the round ends the phase, with the promise of every acceptor.
  prepare-promise :
      (fuel : ℕ) (s : Scout) (a : Acceptor) (l : Station) (t : Tally) (w : Cluster)
      → a.promised <ℤ s.proposal_number
      → Healthy self s a l w
      → prepare (cluster_net host self) (suc fuel) s t w
        ≡ promised s (tally_after s (Acceptor.promise a) t) (asked s w)
  unfolding prepare
  prepare-promise fuel s a l t w above h =
      let r = Acceptor.promise a in
      let u = tally_after s r t in
      let c = count_promise-Counted t (same_from s.acceptor_stubs r) in
      let promises : is_majority s u.promised ≡ true = ground (
        arith,
        c.promised,
        agreeing-all r s.acceptor_stubs (agrees-promise a),
        h.all,
        h.some_acceptor,
      ) in
      let active : is_majority s u.active ≡ true =
        ground (arith, c.active, answers-same_from r s.acceptor_stubs, h.all, h.some_acceptor) in
      rw
        (
          prepare_round-Healthy s a l r t w
              (ap (λ x. x.1) (on_message-promise a s.proposal_number above)) h,
          active,
          promises,
        )
        refl

  abbrev pub raised : Scout → Acceptor → Scout
  raised s a = record s { proposal_number = inc a.promised }

  -- A number that is not: every acceptor refuses, and the next round has a number above.
  prepare-refusal :
      (fuel : ℕ) (s : Scout) (a : Acceptor) (l : Station) (junk : ℤ) (w : Cluster)
      → s.proposal_number ≤ℤ a.promised
      → minus_one ≤ℤ a.promised
      → Healthy self s a l w
      → prepare (cluster_net host self) (suc fuel) s (no_tally junk) w
        ≡ prepare
            (cluster_net host self)
            fuel
            (raised s a)
            (tally_after s (Acceptor.refusal a) (no_tally junk))
            (asked s w)
  unfolding prepare no_tally
  prepare-refusal fuel s a l junk w below floor h =
      let r = Acceptor.refusal a in
      let t = no_tally junk in
      let u = tally_after s r t in
      let c = count_promise-Counted t (same_from s.acceptor_stubs r) in
      let refused : is_majority s u.promised ≡ false =
        ground (arith, c.promised, agreeing-none r s.acceptor_stubs (agrees-refusal a)) in
      let active : is_majority s u.active ≡ true =
        ground (arith, c.active, answers-same_from r s.acceptor_stubs, h.all, h.some_acceptor) in
      let highest : u.highest ≡ a.promised =
        highest-same_from r t s.acceptor_stubs (omega (arith, h.all, h.some_acceptor))
          (rw (number-refusal a) floor)
        ∙ number-refusal a in
      rw
        (
          prepare_round-Healthy s a l r t w
              (ap (λ x. x.1) (on_message-refusal a s.proposal_number below)) h,
          active,
          refused,
          highest,
        )
        refl

  promised-Healthy :
      (s : Scout) (a : Acceptor) (l : Station) (w : Cluster)
      → a.promised <ℤ s.proposal_number
      → Healthy self s a l w
      → Healthy self s (record a { promised = s.proposal_number }) l (asked s w)
  promised-Healthy s a l w above h = record {
    alike =
        acceptors-Alike self s.acceptor_stubs s.learner_stubs a
          (record a { promised = s.proposal_number }) l (prepare_msg s.proposal_number) w
          (ap (λ x. x.0) (on_message-promise a s.proposal_number above)) h.alike;
    all = h.all;
    some_acceptor = h.some_acceptor;
  }

  refused-Healthy :
      (s : Scout) (a : Acceptor) (l : Station) (w : Cluster)
      → s.proposal_number ≤ℤ a.promised
      → Healthy self s a l w
      → Healthy self (raised s a) a l (asked s w)
  refused-Healthy s a l w below h = record {
    alike =
        acceptors-Alike self s.acceptor_stubs s.learner_stubs a a l (prepare_msg s.proposal_number)
          w (ap (λ x. x.0) (on_message-refusal a s.proposal_number below)) h.alike;
    all = h.all;
    some_acceptor = h.some_acceptor;
  }

  -- The phase as a whole, which needs two rounds at most.
  pub prepared-Healthy :
      (fuel : ℕ) (s : Scout) (a : Acceptor) (l : Station) (junk : ℤ) (w : Cluster)
      → minus_one ≤ℤ a.promised
      → a.promised <ℤ max_int
      → Healthy self s a l w
      → (n : ℤ) × (u : Tally) × (w' : Cluster) × (prepare
            (cluster_net host self)
            (suc (suc fuel))
            s
            (no_tally junk)
            w
          ≡ promised (record s { proposal_number = n }) u w')
        × (a.promised <ℤ n)
        × ((n ≡ s.proposal_number) ⊎ (n ≡ inc a.promised))
        × Quiet a u
        × (a.accepted ≤ℤ u.best)
        × Healthy self (record s { proposal_number = n }) (record a { promised = n }) l w'
  unfolding no_tally
  prepared-Healthy fuel s a l junk w floor room h =
      elim (Bool-cases (ltb_ℤ a.promised s.proposal_number)) [
        | inl above ↦
            let above_it : a.promised <ℤ s.proposal_number = ground arith in
            (
              s.proposal_number,
              tally_after s (Acceptor.promise a) (no_tally junk),
              asked s w,
              prepare-promise (suc fuel) s a l (no_tally junk) w above_it h,
              above_it,
              inl refl,
              Quiet-promise s a (no_tally junk) refl,
              best_reported s a (no_tally junk) h.all h.some_acceptor,
              promised-Healthy s a l w above_it h,
            )
        | inr below ↦
            let below_it : s.proposal_number ≤ℤ a.promised = ground arith in
            let s₁ = raised s a in
            let w₁ = asked s w in
            let t₁ = tally_after s (Acceptor.refusal a) (no_tally junk) in
            let above_it : a.promised <ℤ inc a.promised = inc-above a.promised floor room in
            let h₁ : Healthy self s₁ a l w₁ = refused-Healthy s a l w below_it h in
            (
              inc a.promised,
              tally_after s₁ (Acceptor.promise a) t₁,
              asked s₁ w₁,
              prepare-refusal (suc fuel) s a l junk w below_it floor h
                  ∙ prepare-promise fuel s₁ a l t₁ w₁ above_it h₁,
              above_it,
              inr refl,
              Quiet-promise s₁ a t₁ (still_none s a (no_tally junk) refl),
              best_reported s₁ a t₁ h.all h.some_acceptor,
              promised-Healthy s₁ a l w₁ above_it h₁,
            )
      ]
