-- ===== src/Agreement/Rounds.antt =====
-- What the answers that a prepare round counts say about the sites.
use cs.Agreement.{Answer, Vote, Site, Proposal, prepare_site, accept_site, AllHeard}
use cs.Agreement.Counting.{count}
use cs.Agreement.Sites.{
  IsKept, IsRising, IsSound, IsBacked, prepare_site_cases, promised_site, accept_site_cases,
  accepted_site,
}
use cs.Base.{
  In, All-In, ℕ, ◌+◌, ◌≤◌, ◌≡◌, refl, sym, ap, subst, ◌∙◌, ◌⊎◌, inl, inr, Bool, true, false, ◌&&◌,
  ◌||◌, Option, none, some, List, [], ◌∷◌, ◌==◌, length, All, Bool-cases, arith,
}
use cs.Base.Int.{ℤ, minus_one, leb_ℤ, eqb_ℤ, eqb_ℤ_iff, ◌≤ℤ◌, ◌<ℤ◌}
use cs.Messages.Command.{Command}
use cs.Messages.PaxosMsg.{PaxosMsg}
use cs.Scout.{agrees}
use cs.Scout.Counting.{agreeing, NoneAbove, Reported}

unfoldable pub has_vote : ℤ → List Vote → Bool
has_vote m [] = false
has_vote m (v ∷ votes) = eqb_ℤ v.number m || has_vote m votes

-- An acceptor that has accepted the number `m`, or still may.
unfoldable pub could_vote : ℤ → Site → Bool
unfolding has_vote
could_vote m s = leb_ℤ s.acceptor.promised m || has_vote m s.votes

unfoldable pub has_answer : ℕ → ℤ → List Answer → Bool
has_answer round n [] = false
has_answer round n (a ∷ answers) =
    (a.round == round && eqb_ℤ a.number n) || has_answer round n answers

-- An acceptor that has promised the number to the round.
unfoldable pub answered : ℕ → ℤ → Site → Bool
unfolding has_answer
answered round n s = has_answer round n s.answers

pub prepare_site-could_vote :
    (round : ℕ) (msg : PaxosMsg) (m : ℤ) (s : Site)
    → could_vote m (prepare_site round msg s) ≡ true
    → could_vote m s ≡ true
prepare_site-could_vote round msg m s h = elim (prepare_site_cases round msg s) [
  | inl e ↦ subst (λ t. could_vote m t ≡ true) e h
  | inr (fresh, e) ↦
      let later : could_vote m (promised_site round msg s) ≡ true =
        subst (λ t. could_vote m t ≡ true) e h in
      unfold could_vote in ground (arith, later)
]

pub accept_site-could_vote :
    (msg : PaxosMsg) (m : ℤ) (s : Site)
    → could_vote m (accept_site msg s) ≡ true
    → could_vote m s ≡ true
accept_site-could_vote msg m s h = elim (accept_site_cases msg s) [
  | inl e ↦ subst (λ t. could_vote m t ≡ true) e h
  | inr (same, e) ↦
      let later : could_vote m (accepted_site msg s) ≡ true =
        subst (λ t. could_vote m t ≡ true) e h in
      let low : s.acceptor.promised ≤ℤ msg.propose_number = rw same (omega arith) in
      unfold could_vote in ground (arith, later, low)
]

pub prepare_site-answered :
    (round' : ℕ) (msg : PaxosMsg) (round : ℕ) (n : ℤ) (s : Site)
    → answered round n s ≡ true
    → answered round n (prepare_site round' msg s) ≡ true
prepare_site-answered round' msg round n s h = elim (prepare_site_cases round' msg s) [
  | inl e ↦ subst (λ t. answered round n t ≡ true) (sym e) h
  | inr (fresh, e) ↦
      subst (λ t. answered round n t ≡ true) (sym e) (unfold answered in ground (arith, h))
]

pub accept_site-answered :
    (msg : PaxosMsg) (round : ℕ) (n : ℤ) (s : Site)
    → answered round n s ≡ true
    → answered round n (accept_site msg s) ≡ true
accept_site-answered msg round n s h = elim (accept_site_cases msg s) [
  | inl e ↦ subst (λ t. answered round n t ≡ true) (sym e) h
  | inr (same, e) ↦ subst (λ t. answered round n t ≡ true) (sym e) (unfold answered in h)
]

has_answer-In :
    (round : ℕ) (n : ℤ) (r : PaxosMsg) (answers : List Answer)
    → In (record { round = round; number = n; reply = r }) answers
    → has_answer round n answers ≡ true
unfolding has_answer
has_answer-In round n r [] i = absurd i
has_answer-In round n r (a ∷ answers) (inl e) =
    ground
      (arith, ap (λ (x : Answer). x.round) e, ap (λ (x : Answer). x.number) e, eqb_ℤ_iff a.number n)
has_answer-In round n r (a ∷ answers) (inr i) = ground (arith, has_answer-In round n r answers i)

-- Every promise that is counted was given.
pub agreeing-le_count :
    (round : ℕ) (n : ℤ) (sites : List Site) (rs : List (Option PaxosMsg))
    → AllHeard round n sites rs
    → agreeing rs ≤ count (answered round n) sites
unfolding agreeing count
agreeing-le_count round n [] [] h = omega arith
agreeing-le_count round n [] (r ∷ rs) h = absurd h
agreeing-le_count round n (s ∷ sites) [] h = absurd h
agreeing-le_count round n (s ∷ sites) (none ∷ rs) h =
    omega (arith, agreeing-le_count round n sites rs h.1)
agreeing-le_count round n (s ∷ sites) (some r ∷ rs) (inl e, h) =
    rw e (omega (arith, agreeing-le_count round n sites rs h))
agreeing-le_count round n (s ∷ sites) (some r ∷ rs) (inr i, h) =
    let given : answered round n s ≡ true =
      unfold answered in has_answer-In round n r s.answers i in
    ground (arith, given, agreeing-le_count round n sites rs h)

has_vote-between :
    (n m top : ℤ) (votes : List Vote)
    → top <ℤ m
    → m <ℤ n
    → All (λ v. v.number <ℤ n → v.number ≤ℤ top) votes
    → has_vote m votes ≡ false
unfolding has_vote
has_vote-between n m top [] h k a = refl
has_vote-between n m top (v ∷ votes) h k a = elim (Bool-cases (eqb_ℤ v.number m)) [
  | inr other ↦ rw other (has_vote-between n m top votes h k a.1)
  | inl same ↦
      let e = (eqb_ℤ_iff v.number m).0 same in
      let low : v.number ≤ℤ top = a.0 (subst (λ x. x <ℤ n) (sym e) k) in
      absurd (omega (arith, subst (λ x. x ≤ℤ top) e low))
]

-- A site that gave the promise cannot accept between what it reported and the number.
given_bars :
    (ps : List Proposal) (round : ℕ) (n m best : ℤ) (s : Site) (r : PaxosMsg)
    → IsSound ps s
    → In (record { round = round; number = n; reply = r }) s.answers
    → best <ℤ m
    → m <ℤ n
    → r.accepted_proposal ≤ℤ best
    → could_vote m s ≡ false
given_bars ps round n m best s r k i low high top =
    let kept = All-In (IsKept s) _ s.answers i k.kept in
    let none_between =
      has_vote-between n m r.accepted_proposal s.votes (omega arith) high kept.last in
    unfold could_vote in ground (arith, none_between, kept.barred)

-- The sites whose promises are counted cannot accept between the best number reported and the
-- number of the round.
pub counted_bar :
    (ps : List Proposal) (round : ℕ) (n m best : ℤ) (sites : List Site)
    (rs : List (Option PaxosMsg))
    → AllHeard round n sites rs
    → All (IsSound ps) sites
    → All (NoneAbove best) rs
    → best <ℤ m
    → m <ℤ n
    → agreeing rs + count (could_vote m) sites ≤ length sites
unfolding agreeing count
counted_bar ps round n m best [] [] h k a low high = omega arith
counted_bar ps round n m best [] (r ∷ rs) h k a low high = absurd h
counted_bar ps round n m best (s ∷ sites) [] h k a low high = absurd h
counted_bar ps round n m best (s ∷ sites) (none ∷ rs) h k a low high =
    ground (arith, counted_bar ps round n m best sites rs h.1 k.1 a.1 low high)
counted_bar ps round n m best (s ∷ sites) (some r ∷ rs) (inl e, h) k a low high =
    ground (arith, e, counted_bar ps round n m best sites rs h k.1 a.1 low high)
counted_bar ps round n m best (s ∷ sites) (some r ∷ rs) (inr i, h) k a low high =
    elim (Bool-cases (agrees r)) [
      | inr refused ↦
          ground (arith, refused, counted_bar ps round n m best sites rs h k.1 a.1 low high)
      | inl agreed ↦
          let barred = given_bars ps round n m best s r k.0 i low high (a.0 agreed) in
          ground (arith, barred, counted_bar ps round n m best sites rs h k.1 a.1 low high)
    ]

-- What is reported is a proposal.
pub Reported-IsBacked :
    (ps : List Proposal) (round : ℕ) (n best : ℤ) (cmd : Command) (sites : List Site)
    (rs : List (Option PaxosMsg))
    → AllHeard round n sites rs
    → All (IsSound ps) sites
    → Reported best cmd rs
    → (best ≡ minus_one) ⊎ IsBacked ps (record { number = best; command = cmd })
Reported-IsBacked ps round n best cmd [] [] h k reported = absurd reported
Reported-IsBacked ps round n best cmd [] (r ∷ rs) h k reported = absurd h
Reported-IsBacked ps round n best cmd (s ∷ sites) [] h k reported = absurd h
Reported-IsBacked ps round n best cmd (s ∷ sites) (none ∷ rs) h k reported =
    Reported-IsBacked ps round n best cmd sites rs h.1 k.1 reported
Reported-IsBacked ps round n best cmd (s ∷ sites) (some r ∷ rs) h k (inr later) =
    Reported-IsBacked ps round n best cmd sites rs h.1 k.1 later
Reported-IsBacked ps round n best cmd (s ∷ sites) (some r ∷ rs) (inl e, h) k (inl (agreed, p, q)) =
    absurd (ground (arith, e, agreed))
Reported-IsBacked ps round n best cmd (s ∷ sites) (some r ∷ rs) (inr i, h) k (inl (agreed, p, q)) =
    elim ((All-In (IsKept s) _ s.answers i k.0.kept).reported) [
      | inl nothing ↦ inl (sym p ∙ nothing)
      | inr v ↦
          let backed = (All-In _ _ s.votes v k.0.backed).1 in
          inr (subst (λ (x : Vote). IsBacked ps x) (rw (q, p)) backed)
    ]

-- A number is promised to one round only.
has_answer-lt :
    (round : ℕ) (n top : ℤ) (answers : List Answer)
    → All (λ b. b.number <ℤ top) answers
    → has_answer round n answers ≡ true
    → n <ℤ top
unfolding has_answer
has_answer-lt round n top [] a h = cc
has_answer-lt round n top (b ∷ answers) a h = elim (Bool-cases (eqb_ℤ b.number n)) [
  | inl same ↦ subst (λ x. x <ℤ top) ((eqb_ℤ_iff b.number n).0 same) a.0
  | inr other ↦ has_answer-lt round n top answers a.1 (ground (arith, other, h))
]

no_later_answer :
    (round : ℕ) (n top : ℤ) (answers : List Answer)
    → All (λ b. b.number <ℤ top) answers
    → top ≡ n
    → has_answer round n answers ≡ false
no_later_answer round n top answers a e = elim (Bool-cases (has_answer round n answers)) [
  | inr missing ↦ missing
  | inl found ↦
      absurd (omega (arith, subst (λ x. n <ℤ x) e (has_answer-lt round n top answers a found)))
]

pub has_answer-once :
    (round round' : ℕ) (n : ℤ) (answers : List Answer)
    → IsRising answers
    → has_answer round n answers ≡ true
    → has_answer round' n answers ≡ true
    → round ≡ round'
unfolding has_answer
has_answer-once round round' n [] rising h k = cc
has_answer-once round round' n (a ∷ answers) rising h k = elim (Bool-cases (eqb_ℤ a.number n)) [
  | inr other ↦
      has_answer-once round round' n answers rising.1 (ground (arith, other, h))
        (ground (arith, other, k))
  | inl same ↦
      let e = (eqb_ℤ_iff a.number n).0 same in
      ground (
        arith,
        h,
        k,
        no_later_answer round n a.number answers rising.0 e,
        no_later_answer round' n a.number answers rising.0 e,
      )
]
