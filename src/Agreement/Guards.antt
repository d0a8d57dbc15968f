-- ===== src/Agreement/Guards.antt =====
-- What guards a proposal (of a scout of src/ServerThread.cpp) against other commands below its number.
use cs.Agreement.{Site, Proposal, at, value_of, IsUnaware, Vote}
use cs.Agreement.Counting.{count, overlap, All-at, length-at, count-at_le, count-le-at}
use cs.Agreement.Rounds.{could_vote, answered, has_answer-once}
use cs.Agreement.Sites.{IsSound, IsBacked}
use cs.Base.{
  In, All-In, ℕ, ◌/◌, ◌≤◌, ◌<◌, ◌≡◌, ◌≢◌, refl, sym, subst, ◌⊎◌, inl, inr, true, none, List, [],
  ◌∷◌, length, All, All-map, Bool-cases, arith,
}
use cs.Base.Int.{ℤ, minus_one, eqb_ℤ, eqb_ℤ_iff, ◌≤ℤ◌, ◌<ℤ◌}
use cs.Map.{Map, find}
use cs.Messages.Command.{Command}
use cs.Scout.{Tally}

-- Nothing else can be accepted by a majority below a proposal.
abbrev pub IsGuarded : List Site → List Proposal → Proposal → Type 0
IsGuarded sites ps p =
    (m : ℤ)
    → minus_one <ℤ m
    → m <ℤ p.number
    → (count (could_vote m) sites ≤ length sites / 2)
      ⊎ IsBacked ps (record { number = m; command = p.command })

abbrev pub HasQuorum : List Site → Proposal → Type 0
HasQuorum sites p = length sites / 2 < count (answered p.round p.number) sites

abbrev pub IsDistinct : List Proposal → Type 0
IsDistinct [] = Unit {0}
IsDistinct (p ∷ ps) = All (λ q. q.number ≢ p.number) ps × IsDistinct ps

pub record IsSafe (sites : List Site) (ps : List Proposal) : Type 0 where
  pub sound : All (IsSound ps) sites
  pub quorums : All (HasQuorum sites) ps
  pub distinct : IsDistinct ps
  pub above : All (λ p. minus_one <ℤ p.number) ps
  pub guarded : All (IsGuarded sites ps) ps

pub moved-IsSafe :
    (f : Site → Site) (k : ℕ) (sites : List Site) (ps : List Proposal)
    → ((s : Site) → IsSound ps s → IsSound ps (f s))
    → ((m : ℤ) (s : Site) → could_vote m (f s) ≡ true → could_vote m s ≡ true)
    → ((round : ℕ) (n : ℤ) (s : Site) → answered round n s ≡ true → answered round n (f s) ≡ true)
    → IsSafe sites ps
    → IsSafe (at k f sites) ps
moved-IsSafe f k sites ps keep bars gives safe =
    let same = length-at f k sites in
    record {
      sound = All-at (IsSound ps) f k sites keep safe.sound;
      quorums =
          All-map (HasQuorum sites) (HasQuorum (at k f sites)) ps
            (λ p q. omega (
              arith,
              same,
              count-le-at (answered p.round p.number) f k sites (gives p.round p.number),
            ))
            safe.quorums;
      distinct = safe.distinct;
      above = safe.above;
      guarded =
          All-map (IsGuarded sites ps) (IsGuarded (at k f sites) ps) ps
            (λ p g m high low. elim (g m high low) [
              | inr backed ↦ inr backed
              | inl few ↦ inl (
                  omega (
                    arith,
                    same,
                    count-at_le (IsSound ps) (could_vote m) f k sites (λ s _. bars m s) safe.sound,
                  ))
            ])
            safe.guarded;
    }

-- The number of a proposal is new: a majority has promised it to this round only.
pub fresh_number :
    (sites : List Site) (ps : List Proposal) (round : ℕ) (n : ℤ) (q : Proposal)
    → All (IsSound ps) sites
    → length sites / 2 < count (answered round n) sites
    → HasQuorum sites q
    → q.round ≢ round
    → q.number ≢ n
fresh_number sites ps round n q sound quorum other differs e =
    let there : length sites / 2 < count (answered q.round n) sites =
      subst (λ x. length sites / 2 < count (answered q.round x) sites) e other in
    let (s, i, a, b) =
      overlap (answered round n) (answered q.round n) sites (omega (arith, quorum, there)) in
    let rising = (All-In (IsSound ps) s sites i sound).rising in
    differs (sym (unfold answered in has_answer-once round q.round n s.answers rising a b))

pub IsGuarded-cons :
    (sites : List Site) (ps : List Proposal) (p q : Proposal)
    → IsGuarded sites ps q
    → IsGuarded sites (p ∷ ps) q
IsGuarded-cons sites ps p q g m high low = elim (g m high low) [
  | inl few ↦ inl few
  | inr (round, i) ↦ inr (round, inr i)
]

pub value_of_reported :
    (decisions : Map Command) (t : Tally) (own : Command)
    → minus_one <ℤ t.best
    → find t.command.slot decisions ≡ none
    → value_of decisions t own ≡ t.command
unfolding value_of
value_of_reported decisions t own h unaware = elim (Bool-cases (eqb_ℤ t.best minus_one)) [
  | inr other ↦ rw (other, unaware) refl
  | inl none_yet ↦
      absurd
        (omega (arith, subst (λ x. minus_one <ℤ x) ((eqb_ℤ_iff t.best minus_one).0 none_yet) h))
]

-- What has been proposed is not decided for a server that is not aware of it.
pub backed_unaware :
    (decisions : Map Command) (ps : List Proposal) (v : Vote)
    → IsUnaware decisions ps
    → IsBacked ps v
    → find v.command.slot decisions ≡ none
backed_unaware decisions ps v unaware (round, i) =
    All-In (λ p. find p.command.slot decisions ≡ none) _ ps i unaware

-- The number that is reported, and all below it.
pub below_reported :
    (sites : List Site) (ps : List Proposal) (m best : ℤ) (cmd : Command)
    → All (IsGuarded sites ps) ps
    → minus_one <ℤ m
    → m ≤ℤ best
    → IsBacked ps (record { number = best; command = cmd })
    → (count (could_vote m) sites ≤ length sites / 2)
      ⊎ IsBacked ps (record { number = m; command = cmd })
below_reported sites ps m best cmd guarded high low (round, i) = elim (Bool-cases (eqb_ℤ best m)) [
  | inl same ↦ inr (
    round,
    subst (λ (x : ℤ). In (record { round = round; number = x; command = cmd }) ps)
        ((eqb_ℤ_iff best m).0 same) i,
  )
  | inr other ↦ All-In (IsGuarded sites ps) _ ps i guarded m high (ground arith)
]
