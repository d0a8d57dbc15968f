-- ===== src/Scout/Lone.antt =====
-- The counts of the prepare phase of LaptopFactory::ScoutBrocasting are kept from round to round:
-- a network in which only one acceptor ever promises.
use cs.Base.{
  ℕ, zero, suc, ◌+◌, ◌/◌, ◌≤◌, ◌<◌, ◌≡◌, ◌≢◌, refl, ap, ◌∙◌, inl, inr, Bool, true, false, Option,
  some, List, [], ◌∷◌, if◌then◌else◌, arith, length, Bool-cases,
}
use cs.Base.Int.{ℤ, pos, eqb_ℤ, eqb_ℤ_iff}
use cs.Map.{Map}
use cs.Messages.PaxosMsg
use cs.Messages.PaxosMsg.{PaxosMsg}
use cs.Scout.{Net, Scout, Tally, no_tally, agrees, count_promise}
use cs.Scout.Counting.{
  replies, one_reply, answering, round_lem, agreeing, answers, count_promise-Counted,
}
use cs.Scout.Phases.{is_majority, promised, prepare_round, kept, retry, prepare}

-- Every message is delivered, and only the acceptor behind the stub `k` promises.
pub record IsLone {W : Type 0} (net : Net W) (k : ℤ) : Type 0 where
  pub sends : (stub : ℤ) (msg : PaxosMsg) (w : W) → (net.send stub msg w).0 ≡ true
  pub agree : (w : W) → agrees (net.receive k w).0 ≡ true
  pub refuse : (stub : ℤ) (w : W) → stub ≢ k → agrees (net.receive stub w).0 ≡ false

abbrev pub occurrences : ℤ → Map ℤ → ℕ
occurrences k [] = 0
occurrences k ((id, stub) ∷ stubs) = (if eqb_ℤ stub k then 1 else 0) + occurrences k stubs

occurrences-le : (k : ℤ) (stubs : Map ℤ) → occurrences k stubs ≤ length stubs
occurrences-le k [] = omega arith
occurrences-le k ((id, stub) ∷ stubs) = ground (arith, occurrences-le k stubs)

majority : (s : Scout) (n : ℕ) → s.acceptor_count / 2 < n → is_majority s n ≡ true
majority s n h = ground arith

minority : (s : Scout) (n : ℕ) → n ≤ s.acceptor_count / 2 → is_majority s n ≡ false
minority s n h = ground arith

module _ {W : Type 0} (net : Net W) (k : ℤ) (lone : IsLone net k) where
  one_agrees :
      (stub : ℤ) (w : W) (rs : List (Option PaxosMsg))
      → agreeing (some (net.receive stub w).0 ∷ rs) ≡ (if eqb_ℤ stub k then 1 else 0) + agreeing rs
  unfolding agreeing
  one_agrees stub w rs = elim (Bool-cases (eqb_ℤ stub k)) [
    | inl here ↦ let e : stub ≡ k = (eqb_ℤ_iff stub k).0 here in rw (here, e, lone.agree w)
    | inr other ↦ rw (other, lone.refuse stub w (λ e. cc ((eqb_ℤ_iff stub k).1 e)))
  ]

  -- One promise for each stub `k`, an answer from every stub, and every stub stays.
  abbrev AsLone : Map ℤ → List (Option PaxosMsg) → Type 0
  AsLone stubs rs =
      (agreeing rs ≡ occurrences k stubs)
      × (answers rs ≡ length stubs)
      × (answering stubs rs ≡ stubs)

  lone_step :
      (msg : PaxosMsg) (id stub : ℤ) (stubs : Map ℤ) (sent : Bool × W)
      → sent.0 ≡ true
      → ((w : W) → AsLone stubs (replies net msg stubs w))
      → AsLone
          ((id, stub) ∷ stubs)
          ((one_reply net stub sent).0 ∷ replies net msg stubs (one_reply net stub sent).1)
  unfolding answers answering
  lone_step msg id stub stubs (false, w) e ih = cc
  lone_step msg id stub stubs (true, w) e ih =
      let (a, b, c) = ih (net.receive stub w).1 in
      (
        one_agrees stub w _ ∙ ap (λ (n : ℕ). (if eqb_ℤ stub k then 1 else 0) + n) a,
        omega (arith, b),
        ap (λ (l : Map ℤ). (id, stub) ∷ l) c,
      )

  lone_round : (msg : PaxosMsg) (stubs : Map ℤ) (w : W) → AsLone stubs (replies net msg stubs w)
  unfolding replies answers answering
  lone_round msg [] w = (unfold agreeing in refl, refl, refl)
  lone_round msg ((id, stub) ∷ stubs) w =
      lone_step msg id stub stubs (net.send stub msg w) (lone.sends stub msg w)
        (lone_round msg stubs)

  -- A round adds one promise and counts every acceptor as active.
  lone_prepare_round :
      (s : Scout) (t : Tally) (w : W)
      → occurrences k s.acceptor_stubs ≡ 1
      → let r = prepare_round net s t w in
        (r.tally.promised ≡ t.promised + 1)
        × (r.tally.active ≡ t.active + length s.acceptor_stubs)
        × (r.stubs ≡ s.acceptor_stubs)
  unfolding prepare_round
  lone_prepare_round s t w once =
      let msg = PaxosMsg.set_proposal_number (PaxosMsg.of_phase (pos 1)) s.proposal_number in
      let (a, b, c) = lone_round msg s.acceptor_stubs w in
      let counted = count_promise-Counted t (replies net msg s.acceptor_stubs w) in
      rw (round_lem net msg count_promise s.acceptor_stubs s.learner_stubs t w)
        (omega (arith, counted.promised, a, once), omega (arith, counted.active, b), c)

  lone_prepare :
      (fuel : ℕ) (s : Scout) (t : Tally) (w : W)
      → occurrences k s.acceptor_stubs ≡ 1
      → length s.acceptor_stubs ≡ s.acceptor_count
      → t.promised + fuel ≡ s.acceptor_count / 2 + 1
      → 0 < fuel
      → (s' : Scout) × (u : Tally) × (w' : W) × (prepare net fuel s t w ≡ promised s' u w')
        × (u.promised ≡ s.acceptor_count / 2 + 1)
  unfolding prepare
  lone_prepare zero s t w once all left some_fuel = absurd (omega arith)
  lone_prepare (suc zero) s t w once all left some_fuel =
      let r = prepare_round net s t w in
      let (p, a, stay) = lone_prepare_round s t w once in
      let enough : is_majority s r.tally.active ≡ true =
        majority s r.tally.active (omega (arith, a, occurrences-le k s.acceptor_stubs)) in
      let most : is_majority s r.tally.promised ≡ true =
        majority s r.tally.promised (omega (arith, p)) in
      (kept s r, r.tally, r.world, rw (enough, most), omega (arith, p))
  lone_prepare (suc (suc fuel)) s t w once all left some_fuel =
      let r = prepare_round net s t w in
      let (p, a, stay) = lone_prepare_round s t w once in
      let enough : is_majority s r.tally.active ≡ true =
        majority s r.tally.active (omega (arith, a, occurrences-le k s.acceptor_stubs)) in
      let too_few : is_majority s r.tally.promised ≡ false =
        minority s r.tally.promised (omega (arith, p)) in
      let (s', u, w', e, f) =
        lone_prepare (suc fuel) (retry s r) r.tally r.world (rw stay once) (rw stay all)
          (omega (arith, p)) (omega arith) in
      (s', u, w', rw (enough, too_few) e, f)

  -- Though a single acceptor promises and all others refuse in every round, the
  -- prepare phase ends with a "majority" of promises after acceptor_count / 2 + 1 rounds.
  pub lone_promise :
      (junk : ℤ) (s : Scout) (w : W)
      → occurrences k s.acceptor_stubs ≡ 1
      → length s.acceptor_stubs ≡ s.acceptor_count
      → (s' : Scout) × (u : Tally) × (w' : W) × (prepare net
            (s.acceptor_count / 2 + 1)
            s
            (no_tally junk)
            w
          ≡ promised s' u w')
        × (u.promised ≡ s.acceptor_count / 2 + 1)
  unfolding no_tally
  lone_promise junk s w once all =
      lone_prepare (s.acceptor_count / 2 + 1) s (no_tally junk) w once all (omega arith)
        (omega arith)
