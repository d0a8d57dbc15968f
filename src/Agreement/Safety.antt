-- ===== src/Agreement/Safety.antt =====
-- Two commands that majorities of the acceptors have accepted.
use cs.Agreement.{Vote, Site, Proposal, System, Reach}
use cs.Agreement.Counting.{count, overlap, count_mono}
use cs.Agreement.Guards.{IsSafe, IsDistinct, IsGuarded}
use cs.Agreement.Invariant.{Reach-IsSafe}
use cs.Agreement.Rounds.{has_vote, could_vote}
use cs.Agreement.Sites.{IsSound, IsBacked}
use cs.Base.{
  In, All-In, ℕ, ◌/◌, ◌<◌, ◌≡◌, ◌≢◌, refl, sym, ap, subst, ◌∙◌, inl, inr, Bool, true, false, ◌&&◌,
  ◌||◌, List, [], ◌∷◌, ◌==◌, length, Bool-cases, arith,
}
use cs.Base.Int.{ℤ, minus_one, eqb_ℤ, eqb_ℤ_iff, ◌<ℤ◌, ltb_ℤ}
use cs.Messages.Command.{Command}

eqb_text : List ℕ → List ℕ → Bool
eqb_text [] [] = true
eqb_text [] (d ∷ ds) = false
eqb_text (c ∷ cs) [] = false
eqb_text (c ∷ cs) (d ∷ ds) = c == d && eqb_text cs ds

eqb_text→eq : (cs ds : List ℕ) → eqb_text cs ds ≡ true → cs ≡ ds
unfolding eqb_text
eqb_text→eq [] [] h = refl
eqb_text→eq [] (d ∷ ds) h = cc
eqb_text→eq (c ∷ cs) [] h = cc
eqb_text→eq (c ∷ cs) (d ∷ ds) h = ground (arith, h, eqb_text→eq cs ds)

eqb_command : Command → Command → Bool
eqb_command u v =
    eqb_ℤ u.slot v.slot
    && (eqb_ℤ u.command_id v.command_id
        && (eqb_text u.client_ip v.client_ip
            && (eqb_ℤ u.customer_id v.customer_id && eqb_ℤ u.order_id v.order_id)))

eqb_command→eq : (u v : Command) → eqb_command u v ≡ true → u ≡ v
unfolding eqb_command
eqb_command→eq u v h = ground (
  arith,
  h,
  eqb_ℤ_iff u.slot v.slot,
  eqb_ℤ_iff u.command_id v.command_id,
  eqb_text→eq u.client_ip v.client_ip,
  eqb_ℤ_iff u.customer_id v.customer_id,
  eqb_ℤ_iff u.order_id v.order_id,
)

has_command : ℤ → Command → List Vote → Bool
unfolding eqb_command eqb_text
has_command n v [] = false
has_command n v (x ∷ votes) = (eqb_ℤ x.number n && eqb_command x.command v) || has_command n v votes

-- An acceptor that has accepted the number with the command.
unfoldable pub voted : ℤ → Command → Site → Bool
unfolding has_command
voted n v s = has_command n v s.votes

-- More than half of the acceptors have accepted the number with the command.
abbrev pub IsChosen : System → ℤ → Command → Type 0
IsChosen c n v = length c.sites / 2 < count (voted n v) c.sites

has_command-In :
    (n : ℤ) (v : Command) (votes : List Vote)
    → has_command n v votes ≡ true
    → In (record { number = n; command = v }) votes
unfolding has_command
has_command-In n v [] h = cc
has_command-In n v (x ∷ votes) h = elim (Bool-cases (eqb_ℤ x.number n && eqb_command x.command v)) [
  | inr other ↦ inr (has_command-In n v votes (ground (arith, other, h)))
  | inl both ↦ inl (ground (arith, both, eqb_ℤ_iff x.number n, eqb_command→eq x.command v))
]

voted-In :
    (n : ℤ) (v : Command) (s : Site)
    → voted n v s ≡ true
    → In (record { number = n; command = v }) s.votes
unfolding voted
voted-In n v s h = has_command-In n v s.votes h

has_command-has_vote :
    (n : ℤ) (v : Command) (votes : List Vote)
    → has_command n v votes ≡ true
    → has_vote n votes ≡ true
unfolding has_command has_vote
has_command-has_vote n v [] h = h
has_command-has_vote n v (x ∷ votes) h = ground (arith, h, has_command-has_vote n v votes)

voted-could_vote : (n : ℤ) (v : Command) (s : Site) → voted n v s ≡ true → could_vote n s ≡ true
unfolding voted could_vote
voted-could_vote n v s h = ground (arith, has_command-has_vote n v s.votes h)

-- A chosen command was proposed, with a number that is not negative.
chosen_proposal :
    (c : System) (n : ℤ) (v : Command)
    → IsSafe c.sites c.proposals
    → IsChosen c n v
    → (minus_one <ℤ n) × IsBacked c.proposals (record { number = n; command = v })
chosen_proposal c n v safe h =
    let (s, i, a, b) = overlap (voted n v) (voted n v) c.sites (omega (arith, h)) in
    let sound = All-In (IsSound c.proposals) s c.sites i safe.sound in
    All-In _ _ s.votes (voted-In n v s a) sound.backed

distinct_commands :
    (n : ℤ) (v u : Command) (ps : List Proposal)
    → IsDistinct ps
    → IsBacked ps (record { number = n; command = v })
    → IsBacked ps (record { number = n; command = u })
    → v ≡ u
distinct_commands n v u [] d (i, x) (j, y) = absurd x
distinct_commands n v u (p ∷ ps) d (i, inl x) (j, inl y) =
    sym (ap (λ (q : Proposal). q.command) x) ∙ ap (λ (q : Proposal). q.command) y
distinct_commands n v u (p ∷ ps) d (i, inl x) (j, inr y) =
    absurd (All-In (λ q. q.number ≢ p.number) _ ps y d.0 (sym (ap (λ (q : Proposal). q.number) x)))
distinct_commands n v u (p ∷ ps) d (i, inr x) (j, inl y) =
    absurd (All-In (λ q. q.number ≢ p.number) _ ps x d.0 (sym (ap (λ (q : Proposal). q.number) y)))
distinct_commands n v u (p ∷ ps) d (i, inr x) (j, inr y) =
    distinct_commands n v u ps d.1 (i, x) (j, y)

agree_below :
    (c : System) (n m : ℤ) (v u : Command)
    → IsSafe c.sites c.proposals
    → IsChosen c n v
    → IsChosen c m u
    → m <ℤ n
    → v ≡ u
agree_below c n m v u safe chosen other low =
    let (high, (round, i)) = chosen_proposal c n v safe chosen in
    let (high', backed) = chosen_proposal c m u safe other in
    elim (All-In (IsGuarded c.sites c.proposals) _ c.proposals i safe.guarded m high' low) [
      | inl few ↦ absurd (
          omega (
            arith,
            few,
            other,
            count_mono (voted m u) (could_vote m) c.sites (voted-could_vote m u),
          ))
      | inr same ↦ distinct_commands m v u c.proposals safe.distinct same backed
    ]

-- For one decision: as long as every server that proposes has no decision yet for the slot of a
-- command proposed before, and a round counts only the promises given to it (as the code does in the
-- first round after the label), two commands that majorities of the acceptors have accepted, with
-- whatever numbers, are the same command, in whatever order messages arrive and however many are lost.
pub agreement :
    (size : ℕ) (junk : ℤ) (c : System) (n m : ℤ) (v u : Command)
    → Reach size junk c
    → IsChosen c n v
    → IsChosen c m u
    → v ≡ u
agreement size junk c n m v u reach chosen other =
    let safe = Reach-IsSafe size junk c reach in
    elim (Bool-cases (ltb_ℤ m n)) [
      | inl low ↦ agree_below c n m v u safe chosen other (ground arith)
      | inr not_low ↦ elim (Bool-cases (ltb_ℤ n m)) [
        | inl high ↦ sym (agree_below c m n u v safe other chosen (ground arith))
        | inr not_high ↦
            let same : m ≡ n = ground arith in
            distinct_commands n v u c.proposals safe.distinct (chosen_proposal c n v safe chosen).1
              (subst (λ x. IsBacked c.proposals (record { number = x; command = u })) same
                (chosen_proposal c m u safe other).1)
      ]
    ]
