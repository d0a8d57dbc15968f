-- ===== src/Scout/Quorums.antt =====
-- How many acceptors stand behind the end of the prepare phase and of the accept phase.
use cs.Base.{
  ℕ, zero, suc, ◌+◌, ◌/◌, ◌≤◌, ◌<◌, ◌≡◌, refl, ◌∙◌, ◌⊎◌, inl, inr, Option, none, some, List, [],
  ◌∷◌, ◌++◌, if◌then◌else◌, leb, ◌==◌, arith, All-append, Bool-cases,
}
use cs.Base.Int.{ℤ, pos}
use cs.Messages.Command.{Command}
use cs.Messages.PaxosMsg
use cs.Messages.PaxosMsg.{PaxosMsg}
use cs.Scout.{Net, Scout, Tally, count_promise, count_accept}
use cs.Scout.Counting.{
  replies, round_lem, agreeing, answers, NoneAbove, NoneAbove-mono, Reported, Counted,
  count_promise-Counted, count_accept_lem,
}
use cs.Scout.Phases.{
  is_majority, Prepared, running, too_few, promised, accepted, full_reject, part_reject, inactive,
  verdict, prepare_round, retry, prepare, accept_round, accept_phase,
}

agreeing-append : (xs ys : List (Option PaxosMsg)) → agreeing (xs ++ ys) ≡ agreeing xs + agreeing ys
unfolding agreeing
agreeing-append [] ys = omega arith
agreeing-append (none ∷ xs) ys = agreeing-append xs ys
agreeing-append (some m ∷ xs) ys = omega (arith, agreeing-append xs ys)

answers-append : (xs ys : List (Option PaxosMsg)) → answers (xs ++ ys) ≡ answers xs + answers ys
unfolding answers
answers-append [] ys = omega arith
answers-append (none ∷ xs) ys = answers-append xs ys
answers-append (some m ∷ xs) ys = omega (arith, answers-append xs ys)

Reported-left :
    (best : ℤ) (cmd : Command) (xs ys : List (Option PaxosMsg))
    → Reported best cmd xs
    → Reported best cmd (xs ++ ys)
Reported-left best cmd [] ys h = absurd h
Reported-left best cmd (none ∷ xs) ys h = Reported-left best cmd xs ys h
Reported-left best cmd (some m ∷ xs) ys (inl h) = inl h
Reported-left best cmd (some m ∷ xs) ys (inr h) = inr (Reported-left best cmd xs ys h)

Reported-right :
    (best : ℤ) (cmd : Command) (xs ys : List (Option PaxosMsg))
    → Reported best cmd ys
    → Reported best cmd (xs ++ ys)
Reported-right best cmd [] ys h = h
Reported-right best cmd (none ∷ xs) ys h = Reported-right best cmd xs ys h
Reported-right best cmd (some m ∷ xs) ys h = inr (Reported-right best cmd xs ys h)

chosen-append :
    (t u v : Tally) (xs ys : List (Option PaxosMsg))
    → ((u.best ≡ t.best) × (u.command ≡ t.command)) ⊎ Reported u.best u.command xs
    → ((v.best ≡ u.best) × (v.command ≡ u.command)) ⊎ Reported v.best v.command ys
    → ((v.best ≡ t.best) × (v.command ≡ t.command)) ⊎ Reported v.best v.command (xs ++ ys)
chosen-append t u v xs ys h (inr k) = inr (Reported-right v.best v.command xs ys k)
chosen-append t u v xs ys (inl (e, f)) (inl (g, k)) = inl (g ∙ e, k ∙ f)
chosen-append t u v xs ys (inr h) (inl (g, k)) = inr (rw (g, k) (Reported-left _ _ xs ys h))

Counted-append :
    (t u v : Tally) (xs ys : List (Option PaxosMsg))
    → Counted t u xs
    → Counted u v ys
    → Counted t v (xs ++ ys)
Counted-append t u v xs ys c d = record {
  promised = omega (arith, c.promised, d.promised, agreeing-append xs ys);
  active = omega (arith, c.active, d.active, answers-append xs ys);
  rising = omega (arith, c.rising, d.rising);
  none_above =
      All-append (NoneAbove v.best) xs ys (NoneAbove-mono u.best v.best xs d.rising c.none_above)
        d.none_above;
  chosen = chosen-append t u v xs ys c.chosen d.chosen;
}

module _ {W : Type 0} (net : Net W) where
  -- The answers of one prepare round.
  abbrev pub round_replies : Scout → W → List (Option PaxosMsg)
  round_replies s w =
      replies net (PaxosMsg.set_proposal_number (PaxosMsg.of_phase (pos 1)) s.proposal_number)
        s.acceptor_stubs w

  prepare_round-Counted :
      (s : Scout) (t : Tally) (w : W)
      → Counted t (prepare_round net s t w).tally (round_replies s w)
  unfolding prepare_round
  prepare_round-Counted s t w =
      rw (round_lem net _ count_promise s.acceptor_stubs s.learner_stubs t w)
        (count_promise-Counted t (round_replies s w))

  -- All the answers of a prepare phase, round after round.
  unfoldable pub all_replies : ℕ → Scout → Tally → W → List (Option PaxosMsg)
  all_replies zero s t w = []
  all_replies (suc fuel) s t w =
      let r = prepare_round net s t w in
      let later = all_replies fuel (retry s r) r.tally r.world in
      if is_majority s r.tally.active
      then (if is_majority s r.tally.promised
          then round_replies s w
          else round_replies s w ++ later)
      else round_replies s w

  -- What the end of a prepare phase says about the counts.
  abbrev pub Ends : Scout → Tally → List (Option PaxosMsg) → Prepared W → Type 0
  Ends s t rs running = Unit {0}
  Ends s t rs (too_few s' w) = (u : Tally) × Counted t u rs × (u.active ≤ s.acceptor_count / 2)
  Ends s t rs (promised s' u w) =
      Counted t u rs × (s.acceptor_count / 2 < u.promised) × (s.acceptor_count / 2 < u.active)

  Ends-later :
      (s s' : Scout) (t u : Tally) (xs ys : List (Option PaxosMsg)) (r : Prepared W)
      → s'.acceptor_count ≡ s.acceptor_count
      → Counted t u xs
      → Ends s' u ys r
      → Ends s t (xs ++ ys) r
  Ends-later s s' t u xs ys running e c h = tt
  Ends-later s s' t u xs ys (too_few s2 w) e c (v, d, few) =
      (v, Counted-append t u v xs ys c d, omega (arith, e))
  Ends-later s s' t u xs ys (promised s2 v w) e c (d, p, a) =
      (Counted-append t u v xs ys c d, omega (arith, e), omega (arith, e))

  -- However the network answers: a prepare phase that ends has counted exactly the answers of all
  -- its rounds. It ends with a promise only if those agreeing answers outnumber half of the
  -- acceptors, with the command that was reported with the highest accepted proposal, or none; it
  -- gives up only if the answers of all rounds do not outnumber half of the acceptors.
  pub prepare-Ends :
      (fuel : ℕ) (s : Scout) (t : Tally) (w : W)
      → Ends s t (all_replies fuel s t w) (prepare net fuel s t w)
  unfolding prepare all_replies
  prepare-Ends zero s t w = tt
  prepare-Ends (suc fuel) s t w =
      let r = prepare_round net s t w in
      let c = prepare_round-Counted s t w in
      elim (Bool-cases (is_majority s r.tally.active)) [
        | inr few ↦ rw few (r.tally, c, ground arith)
        | inl enough ↦ elim (Bool-cases (is_majority s r.tally.promised)) [
          | inl yes_majority ↦ rw (enough, yes_majority) (c, ground arith, ground arith)
          | inr no_majority ↦
              rw (enough, no_majority)
                (Ends-later s (retry s r) t r.tally (round_replies s w) _ _ refl c
                  (prepare-Ends fuel (retry s r) r.tally r.world))
        ]
      ]

  abbrev pub accept_replies : Scout → Command → W → List (Option PaxosMsg)
  accept_replies s cmd w =
      replies net
        (PaxosMsg.set_proposal_number (PaxosMsg.set_command (PaxosMsg.of_phase (pos 3)) cmd)
          s.proposal_number)
        s.acceptor_stubs w

  -- AcceptPhaseBrocasting returns -2 if the servers that answer do not outnumber half of the
  -- acceptors, else 0 if none of them agrees, 1 if those that agree outnumber half, and -1 if not.
  pub accept_phase_verdict :
      (s : Scout) (cmd : Command) (w : W)
      → let rs = accept_replies s cmd w in
        (accept_phase net s cmd w).0 ≡ (
          if leb (answers rs) (s.acceptor_count / 2)
          then inactive
          else if agreeing rs == 0
          then full_reject
          else if leb (agreeing rs) (s.acceptor_count / 2)
          then part_reject
          else accepted)
  unfolding accept_phase accept_round verdict
  accept_phase_verdict s cmd w =
      rw
        (
          round_lem net _ count_accept s.acceptor_stubs s.learner_stubs (0, 0) w,
          count_accept_lem 0 0 (accept_replies s cmd w),
        )
        (ground arith)
