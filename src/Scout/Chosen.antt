-- ===== src/Scout/Chosen.antt =====
-- A value that a majority of the acceptors of src/ServerThread.cpp has accepted, and the next
-- prepare round of a proposer.
use cs.Acceptor.{Acceptor, on_prepare}
use cs.Base.{
  ℕ, ◌+◌, ◌/◌, ◌≤◌, ◌<◌, ◌≡◌, refl, sym, ◌∙◌, ◌⊎◌, inl, inr, true, false, Option, none, some, List,
  [], ◌∷◌, if◌then◌else◌, length, arith, All, Bool-cases, subst,
}
use cs.Base.Int.{ℤ, pos, minus_one, ltb_ℤ, eqb_ℤ, eqb_ℤ_iff, ◌≤ℤ◌, ◌<ℤ◌, eq_of_parts}
use cs.Messages.Command.{Command}
use cs.Messages.PaxosMsg
use cs.Messages.PaxosMsg.{PaxosMsg}
use cs.Scout.{Net, Scout, Tally, no_tally, agrees, count_promise}
use cs.Scout.Counting.{
  replies, round_lem, agreeing, NoneAbove, Reported, count_promise-Counted, count_all,
}
use cs.Scout.Phases.{prepare_round}

-- How many acceptors have accepted the number `n` last.
unfoldable pub holding : ℤ → List Acceptor → ℕ
holding n [] = 0
holding n (a ∷ group) = (if eqb_ℤ a.accepted n then 1 else 0) + holding n group

-- No number above `n` is accepted, and `n` only with `v`.
abbrev pub AllSettled : ℤ → Command → List Acceptor → Type 0
AllSettled n v = All (λ a. (a.accepted ≤ℤ n) × (a.accepted ≡ n → a.value ≡ v))

-- What comes back from an acceptor: nothing if the send fails, a fresh message if the receive fails,
-- or its reply.
abbrev pub IsAnswer : PaxosMsg → Acceptor → Option PaxosMsg → Type 0
IsAnswer msg a none = Unit {0}
IsAnswer msg a (some r) = (r ≡ PaxosMsg.new) ⊎ (r ≡ (on_prepare a msg).1)

abbrev pub AreAnswers : PaxosMsg → List Acceptor → List (Option PaxosMsg) → Type 0
AreAnswers msg [] [] = Unit {0}
AreAnswers msg [] (r ∷ rs) = ⊥
AreAnswers msg (a ∷ group) [] = ⊥
AreAnswers msg (a ∷ group) (r ∷ rs) = IsAnswer msg a r × AreAnswers msg group rs

-- A p1b message agrees with nothing accepted, or reports what is accepted, or does not agree.
abbrev Replies : Acceptor → PaxosMsg → Type 0
Replies a r =
    (agrees r ≡ false)
    ⊎ (((a.accepted ≡ minus_one) × (r.accepted_proposal ≡ minus_one))
        ⊎ ((r.accepted_proposal ≡ a.accepted) × (PaxosMsg.get_command r ≡ a.value)))

on_prepare-Replies : (a : Acceptor) (msg : PaxosMsg) → Replies a (on_prepare a msg).1
unfolding on_prepare PaxosMsg.get_command
on_prepare-Replies a msg = elim (Bool-cases (ltb_ℤ a.promised msg.propose_number)) [
  | inr old ↦ inl (rw old refl)
  | inl fresh ↦ elim (Bool-cases (eqb_ℤ a.accepted minus_one)) [
    | inl nothing ↦ inr (inl ((eqb_ℤ_iff a.accepted minus_one).0 nothing, rw (fresh, nothing) refl))
    | inr value ↦ inr (inr (rw (fresh, value) refl, rw (fresh, value) refl))
  ]
]

IsAnswer-Replies :
    (msg : PaxosMsg) (a : Acceptor) (r : PaxosMsg) → IsAnswer msg a (some r) → Replies a r
IsAnswer-Replies msg a r (inl e) = inl (rw e (unfold PaxosMsg.new in refl))
IsAnswer-Replies msg a r (inr e) = rw e (on_prepare-Replies a msg)

-- An acceptor that agrees and holds `n` reports it.
one_counts :
    (msg : PaxosMsg) (n best : ℤ) (a : Acceptor) (r : PaxosMsg)
    → minus_one <ℤ n
    → Replies a r
    → NoneAbove best (some r)
    → (((if agrees r then 1 else 0) + (if eqb_ℤ a.accepted n then 1 else 0)) ≤ 1) ⊎ (n ≤ℤ best)
one_counts msg n best a r h (inl refused) none_above = inl (rw refused (ground arith))
one_counts msg n best a r h (inr (inl (e, f))) none_above = inl (
    subst (λ t. ((if agrees r then 1 else 0) + (if eqb_ℤ t n then 1 else 0)) ≤ 1) (sym e)
      (ground arith))
one_counts msg n best a r h (inr (inr (p, q))) none_above = elim (Bool-cases (agrees r)) [
  | inr refused ↦ inl (rw refused (ground arith))
  | inl agreed ↦ elim (Bool-cases (eqb_ℤ a.accepted n)) [
    | inr other ↦ inl (rw (agreed, other) (omega arith))
    | inl held ↦
        inr (subst (λ t. t ≤ℤ best) (p ∙ (eqb_ℤ_iff a.accepted n).0 held) (none_above agreed))
  ]
]

-- Two majorities meet.
meet :
    (msg : PaxosMsg) (n best : ℤ) (group : List Acceptor) (rs : List (Option PaxosMsg))
    → minus_one <ℤ n
    → AreAnswers msg group rs
    → All (NoneAbove best) rs
    → (agreeing rs + holding n group ≤ length group) ⊎ (n ≤ℤ best)
unfolding agreeing holding
meet msg n best [] [] h answers none_above = inl (omega arith)
meet msg n best [] (r ∷ rs) h answers none_above = absurd answers
meet msg n best (a ∷ group) [] h answers none_above = absurd answers
meet msg n best (a ∷ group) (none ∷ rs) h answers none_above =
    elim (meet msg n best group rs h answers.1 none_above.1) [
      | inr reported ↦ inr reported
      | inl few ↦ inl (ground (arith, few))
    ]
meet msg n best (a ∷ group) (some r ∷ rs) h answers none_above =
    elim (one_counts msg n best a r h (IsAnswer-Replies msg a r answers.0) none_above.0) [
      | inr reported ↦ inr reported
      | inl one ↦ elim (meet msg n best group rs h answers.1 none_above.1) [
        | inr reported ↦ inr reported
        | inl few ↦ inl (omega (arith, one, few))
      ]
    ]

reported_here :
    (n best : ℤ) (v cmd : Command) (a : Acceptor) (r : PaxosMsg)
    → minus_one <ℤ n
    → n ≤ℤ best
    → (a.accepted ≤ℤ n) × (a.accepted ≡ n → a.value ≡ v)
    → Replies a r
    → agrees r ≡ true
    → r.accepted_proposal ≡ best
    → PaxosMsg.get_command r ≡ cmd
    → (best ≡ n) × (cmd ≡ v)
reported_here n best v cmd a r h above settled (inl refused) agreed p q =
    absurd (ground (arith, agreed, refused))
reported_here n best v cmd a r h above settled (inr (inl (e, f))) agreed p q =
    let low : n ≤ℤ minus_one = subst (λ t. n ≤ℤ t) (sym p ∙ f) above in absurd (omega (arith, low))
reported_here n best v cmd a r h above settled (inr (inr (e, f))) agreed p q =
    let low : best ≤ℤ n = subst (λ t. t ≤ℤ n) (sym e ∙ p) settled.0 in
    let same : best ≡ n = eq_of_parts best n (omega (arith, low)) in
    (same, sym q ∙ (f ∙ settled.1 (sym e ∙ (p ∙ same))))

Reported-settled :
    (msg : PaxosMsg) (n best : ℤ) (v cmd : Command) (group : List Acceptor)
    (rs : List (Option PaxosMsg))
    → minus_one <ℤ n
    → n ≤ℤ best
    → AreAnswers msg group rs
    → AllSettled n v group
    → Reported best cmd rs
    → (best ≡ n) × (cmd ≡ v)
Reported-settled msg n best v cmd [] [] h above answers settled reported = absurd reported
Reported-settled msg n best v cmd [] (r ∷ rs) h above answers settled reported = absurd answers
Reported-settled msg n best v cmd (a ∷ group) [] h above answers settled reported = absurd answers
Reported-settled msg n best v cmd (a ∷ group) (none ∷ rs) h above answers settled reported =
    Reported-settled msg n best v cmd group rs h above answers.1 settled.1 reported
Reported-settled msg n best v cmd (a ∷ group) (some r ∷ rs) h above answers settled (inr later) =
    Reported-settled msg n best v cmd group rs h above answers.1 settled.1 later
Reported-settled msg n best v cmd (a ∷ group) (some r ∷ rs) h above answers settled
      (inl (agreed, p, q)) =
    reported_here n best v cmd a r h above settled.0 (IsAnswer-Replies msg a r answers.0) agreed p q

best_value :
    (msg : PaxosMsg) (n : ℤ) (v : Command) (t u : Tally) (group : List Acceptor)
    (rs : List (Option PaxosMsg))
    → minus_one <ℤ n
    → t.best ≡ minus_one
    → n ≤ℤ u.best
    → AreAnswers msg group rs
    → AllSettled n v group
    → ((u.best ≡ t.best) × (u.command ≡ t.command)) ⊎ Reported u.best u.command rs
    → (u.best ≡ n) × (u.command ≡ v)
best_value msg n v t u group rs h none_yet above answers settled (inl (e, f)) =
    let low : n ≤ℤ minus_one = subst (λ x. n ≤ℤ x) (e ∙ none_yet) above in
    absurd (omega (arith, low))
best_value msg n v t u group rs h none_yet above answers settled (inr reported) =
    Reported-settled msg n u.best v u.command group rs h above answers settled reported

module _ {W : Type 0} (net : Net W) where
  -- If more than half of the acceptors hold the number `n` with the command `v`, and none has
  -- accepted a greater number, then a first prepare round that counts promises of more than half of
  -- them, over a network that may lose messages, takes over the number `n` and the command `v`.
  pub prepare_round_keeps_chosen :
      (group : List Acceptor) (n : ℤ) (v : Command) (junk : ℤ) (s : Scout) (w : W)
      → AreAnswers
          (PaxosMsg.set_proposal_number (PaxosMsg.of_phase (pos 1)) s.proposal_number)
          group
          (replies net
            (PaxosMsg.set_proposal_number (PaxosMsg.of_phase (pos 1)) s.proposal_number)
            s.acceptor_stubs
            w)
      → minus_one <ℤ n
      → length group ≡ s.acceptor_count
      → s.acceptor_count / 2 < holding n group
      → AllSettled n v group
      → let r = prepare_round net s (no_tally junk) w in
        s.acceptor_count / 2 < r.tally.promised → (r.tally.best ≡ n) × (r.tally.command ≡ v)
  unfolding prepare_round no_tally
  prepare_round_keeps_chosen group n v junk s w answers h whole held settled promises =
      let msg = PaxosMsg.set_proposal_number (PaxosMsg.of_phase (pos 1)) s.proposal_number in
      let rs = replies net msg s.acceptor_stubs w in
      let t = no_tally junk in
      let u = count_all count_promise t rs in
      let c = count_promise-Counted t rs in
      let same = round_lem net msg count_promise s.acceptor_stubs s.learner_stubs t w in
      let enough : s.acceptor_count / 2 < u.promised =
        subst (λ r. s.acceptor_count / 2 < r.tally.promised) same promises in
      rw same (elim (meet msg n u.best group rs h answers c.none_above) [
        | inl few ↦ absurd (omega (arith, few, enough, c.promised, held, whole))
        | inr above ↦ best_value msg n v t u group rs h refl above answers settled c.chosen
      ])
