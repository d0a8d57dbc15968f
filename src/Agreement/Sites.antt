-- ===== src/Agreement/Sites.antt =====
-- What holds at each acceptor with its history.
use cs.Acceptor.Promises.{promise_reports}
use cs.Acceptor.{Acceptor, promise}
use cs.Agreement.{Answer, Vote, Site, Proposal, prepare_site, accept_site}
use cs.Base.{
  In, ℕ, ◌≡◌, refl, sym, subst, ◌∙◌, ◌⊎◌, inl, inr, List, [], ◌∷◌, All, All-map, Bool-cases, arith,
}
use cs.Base.Int.{minus_one, ltb_ℤ, eqb_ℤ, eqb_ℤ_iff, ◌≤ℤ◌, ◌<ℤ◌}
use cs.Messages.PaxosMsg
use cs.Messages.PaxosMsg.{PaxosMsg}

-- A vote is for a proposal of some round.
abbrev pub IsBacked : List Proposal → Vote → Type 0
IsBacked ps v =
    (round : ℕ) × In (record { round = round; number = v.number; command = v.command }) ps

-- A promise bars what is below its number, and reports the last vote before it.
pub record IsKept (s : Site) (a : Answer) : Type 0 where
  pub barred : a.number ≤ℤ s.acceptor.promised
  pub reported :
      (a.reply.accepted_proposal ≡ minus_one)
      ⊎ In
          (record { number = a.reply.accepted_proposal; command = PaxosMsg.get_command a.reply })
          s.votes
  pub last : All (λ v. v.number <ℤ a.number → v.number ≤ℤ a.reply.accepted_proposal) s.votes

-- Later answers stand first, and have greater numbers.
abbrev pub IsRising : List Answer → Type 0
IsRising [] = Unit {0}
IsRising (a ∷ answers) = All (λ b. b.number <ℤ a.number) answers × IsRising answers

pub record IsSound (ps : List Proposal) (s : Site) : Type 0 where
  pub floor : minus_one ≤ℤ s.acceptor.accepted
  pub within : s.acceptor.accepted ≤ℤ s.acceptor.promised
  pub held :
      (s.acceptor.accepted ≡ minus_one)
      ⊎ In (record { number = s.acceptor.accepted; command = s.acceptor.value }) s.votes
  pub below : All (λ v. v.number ≤ℤ s.acceptor.accepted) s.votes
  pub backed : All (λ v. (minus_one <ℤ v.number) × IsBacked ps v) s.votes
  pub kept : All (IsKept s) s.answers
  pub rising : IsRising s.answers

-- The two ways in which a p1a message can be handled, and a p2a message.
abbrev pub promised_site : ℕ → PaxosMsg → Site → Site
promised_site round msg s = record s {
  acceptor = record s.acceptor { promised = msg.propose_number };
  answers =
      record { round = round; number = msg.propose_number; reply = promise s.acceptor } ∷ s.answers;
}

pub prepare_site_cases :
    (round : ℕ) (msg : PaxosMsg) (s : Site)
    → (prepare_site round msg s ≡ s)
      ⊎ ((s.acceptor.promised <ℤ msg.propose_number)
          × (prepare_site round msg s ≡ promised_site round msg s))
unfolding prepare_site
prepare_site_cases round msg s = elim (Bool-cases (ltb_ℤ s.acceptor.promised msg.propose_number)) [
  | inr old ↦ inl (rw old refl)
  | inl fresh ↦ inr (
    ground arith,
    elim (Bool-cases (eqb_ℤ s.acceptor.accepted minus_one)) [
      | inl nothing ↦ rw (fresh, nothing) refl
      | inr value ↦ rw (fresh, value) refl
    ],
  )
]

abbrev pub accepted_site : PaxosMsg → Site → Site
accepted_site msg s = record s {
  acceptor = record s.acceptor { accepted = msg.propose_number; value = PaxosMsg.get_command msg };
  votes = record { number = msg.propose_number; command = PaxosMsg.get_command msg } ∷ s.votes;
}

pub accept_site_cases :
    (msg : PaxosMsg) (s : Site)
    → (accept_site msg s ≡ s)
      ⊎ ((msg.propose_number ≡ s.acceptor.promised) × (accept_site msg s ≡ accepted_site msg s))
unfolding accept_site
accept_site_cases msg s = elim (Bool-cases (eqb_ℤ msg.propose_number s.acceptor.promised)) [
  | inr other ↦ inl (rw other refl)
  | inl same ↦ inr ((eqb_ℤ_iff msg.propose_number s.acceptor.promised).0 same, rw same refl)
]

pub promise_top : (a : Acceptor) → a.accepted ≤ℤ (promise a).accepted_proposal
promise_top a = elim (promise_reports a) [
  | inl (e, f) ↦
      subst (λ x. a.accepted ≤ℤ x) (sym f) (subst (λ x. x ≤ℤ minus_one) (sym e) (omega arith))
  | inr (e, f) ↦ subst (λ x. a.accepted ≤ℤ x) (sym e) (omega arith)
]

promise-In :
    (s : Site)
    → (s.acceptor.accepted ≡ minus_one)
      ⊎ In (record { number = s.acceptor.accepted; command = s.acceptor.value }) s.votes
    → ((promise s.acceptor).accepted_proposal ≡ minus_one)
      ⊎ In
          (record {
            number = (promise s.acceptor).accepted_proposal;
            command = PaxosMsg.get_command (promise s.acceptor);
          })
          s.votes
promise-In s held = elim (promise_reports s.acceptor) [
  | inl (e, f) ↦ inl f
  | inr (e, f) ↦ elim held [ inl none_yet ↦ inl (e ∙ none_yet) | inr i ↦ inr (rw (f, e) i) ]
]

promised_site-IsSound :
    (ps : List Proposal) (round : ℕ) (msg : PaxosMsg) (s : Site)
    → s.acceptor.promised <ℤ msg.propose_number
    → IsSound ps s
    → IsSound ps (promised_site round msg s)
promised_site-IsSound ps round msg s fresh k = record {
  floor = k.floor;
  within = omega (arith, k.within);
  held = k.held;
  below = k.below;
  backed = k.backed;
  kept = (
    record {
      barred = omega arith;
      reported = promise-In s k.held;
      last =
          All-map (λ v. v.number ≤ℤ s.acceptor.accepted)
            (λ v.
              v.number <ℤ msg.propose_number → v.number ≤ℤ (promise s.acceptor).accepted_proposal)
            s.votes (λ v low _. omega (arith, promise_top s.acceptor)) k.below;
    },
    All-map (IsKept s) (IsKept (promised_site round msg s)) s.answers
        (λ a old. record {
          barred = omega (arith, old.barred);
          reported = old.reported;
          last = old.last;
        })
        k.kept,
  );
  rising = (
    All-map (IsKept s) (λ b. b.number <ℤ msg.propose_number) s.answers
        (λ a old. omega (arith, old.barred)) k.kept,
    k.rising,
  );
}

accepted_site-IsSound :
    (ps : List Proposal) (msg : PaxosMsg) (s : Site)
    → msg.propose_number ≡ s.acceptor.promised
    → minus_one <ℤ msg.propose_number
    → IsBacked ps (record { number = msg.propose_number; command = PaxosMsg.get_command msg })
    → IsSound ps s
    → IsSound ps (accepted_site msg s)
accepted_site-IsSound ps msg s same above proposed k =
    let here : msg.propose_number ≤ℤ s.acceptor.promised = rw same (omega arith) in
    let there : s.acceptor.promised ≤ℤ msg.propose_number = rw same (omega arith) in
    record {
      floor = omega arith;
      within = here;
      held = inr (inl refl);
      below = (
        omega arith,
        All-map (λ v. v.number ≤ℤ s.acceptor.accepted) (λ v. v.number ≤ℤ msg.propose_number) s.votes
            (λ v low. omega (arith, there, k.within)) k.below,
      );
      backed = ((above, proposed), k.backed);
      kept =
          All-map (IsKept s) (IsKept (accepted_site msg s)) s.answers
            (λ a old. record {
              barred = old.barred;
              reported = elim old.reported [ inl e ↦ inl e | inr i ↦ inr (inr i) ];
              last = (λ low. absurd (omega (arith, there, old.barred)), old.last);
            })
            k.kept;
      rising = k.rising;
    }

-- A p1a message keeps a site sound.
pub prepare_site-IsSound :
    (ps : List Proposal) (round : ℕ) (msg : PaxosMsg) (s : Site)
    → IsSound ps s
    → IsSound ps (prepare_site round msg s)
prepare_site-IsSound ps round msg s k = elim (prepare_site_cases round msg s) [
  | inl e ↦ subst (IsSound ps) (sym e) k
  | inr (fresh, e) ↦ subst (IsSound ps) (sym e) (promised_site-IsSound ps round msg s fresh k)
]

-- So does a p2a message for a proposal.
pub accept_site-IsSound :
    (ps : List Proposal) (msg : PaxosMsg) (s : Site)
    → minus_one <ℤ msg.propose_number
    → IsBacked ps (record { number = msg.propose_number; command = PaxosMsg.get_command msg })
    → IsSound ps s
    → IsSound ps (accept_site msg s)
accept_site-IsSound ps msg s above proposed k = elim (accept_site_cases msg s) [
  | inl e ↦ subst (IsSound ps) (sym e) k
  | inr (same, e) ↦
      subst (IsSound ps) (sym e) (accepted_site-IsSound ps msg s same above proposed k)
]

-- More proposals do no harm.
pub IsSound-cons :
    (p : Proposal) (ps : List Proposal) (s : Site) → IsSound ps s → IsSound (p ∷ ps) s
IsSound-cons p ps s k = record {
  floor = k.floor;
  within = k.within;
  held = k.held;
  below = k.below;
  backed =
      All-map (λ v. (minus_one <ℤ v.number) × IsBacked ps v)
        (λ v. (minus_one <ℤ v.number) × IsBacked (p ∷ ps) v) s.votes
        (λ v b. (b.0, (b.1.0, inr b.1.1))) k.backed;
  kept = k.kept;
  rising = k.rising;
}
