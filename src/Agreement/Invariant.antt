-- ===== src/Agreement/Invariant.antt =====
-- What every state of the system keeps.
use cs.Acceptor
use cs.Agreement.{
  Site, Proposal, System, prepare_site, accept_site, AllHeard, value_of, IsUnaware, new_site, Step,
  prepared, proposed, accepted, Reach, started, next,
}
use cs.Agreement.Counting.{count}
use cs.Agreement.Rounds.{
  could_vote, answered, prepare_site-could_vote, accept_site-could_vote, prepare_site-answered,
  accept_site-answered, agreeing-le_count, counted_bar, Reported-IsBacked,
}
use cs.Agreement.Sites.{IsSound, IsBacked, prepare_site-IsSound, accept_site-IsSound, IsSound-cons}
use cs.Base.{
  All-In, ℕ, zero, suc, ◌/◌, ◌≤◌, ◌<◌, ◌≡◌, ◌≢◌, refl, sym, subst, ◌⊎◌, inl, inr, Option, List, [],
  ◌∷◌, length, replicate, All, All-map, All-zip, Bool-cases, arith,
}
use cs.Base.Int.{ℤ, minus_one, ◌≤ℤ◌, ◌<ℤ◌, ltb_ℤ}
use cs.Map.{Map}
use cs.Messages.Command.{Command}
use cs.Messages.PaxosMsg.{PaxosMsg}
use cs.Scout.{Tally, no_tally, count_promise}
use cs.Scout.Counting.{agreeing, count_all, Reported, count_promise-Counted}
use cs.Agreement.Guards.{
  IsGuarded, HasQuorum, IsSafe, moved-IsSafe, fresh_number, IsGuarded-cons, value_of_reported,
  backed_unaware, below_reported,
}

promised_lem :
    (junk : ℤ) (rs : List (Option PaxosMsg))
    → (count_all count_promise (no_tally junk) rs).promised ≡ agreeing rs
unfolding no_tally
promised_lem junk rs = omega (arith, (count_promise-Counted (no_tally junk) rs).promised)

chosen_IsBacked :
    (ps : List Proposal) (round : ℕ) (n junk : ℤ) (u : Tally) (sites : List Site)
    (rs : List (Option PaxosMsg))
    → AllHeard round n sites rs
    → All (IsSound ps) sites
    → ((u.best ≡ (no_tally junk).best) × (u.command ≡ (no_tally junk).command))
      ⊎ Reported u.best u.command rs
    → (u.best ≡ minus_one) ⊎ IsBacked ps (record { number = u.best; command = u.command })
unfolding no_tally
chosen_IsBacked ps round n junk u sites rs heard sound (inl (e, f)) = inl e
chosen_IsBacked ps round n junk u sites rs heard sound (inr reported) =
    Reported-IsBacked ps round n u.best u.command sites rs heard sound reported

-- The proposal of a round is guarded: by its own promises above the best number reported, and
-- below it as the proposal that was reported is.
new-IsGuarded :
    (sites : List Site) (ps : List Proposal) (round : ℕ) (n junk : ℤ) (own : Command)
    (decisions : Map Command) (rs : List (Option PaxosMsg))
    → IsUnaware decisions ps
    → IsSafe sites ps
    → AllHeard round n sites rs
    → length sites / 2 < (count_all count_promise (no_tally junk) rs).promised
    → IsGuarded sites ps (record {
      round = round;
      number = n;
      command = value_of decisions (count_all count_promise (no_tally junk) rs) own;
    })
new-IsGuarded sites ps round n junk own decisions rs unaware safe heard majority m high low =
    let t = no_tally junk in
    let u = count_all count_promise t rs in
    let c = count_promise-Counted t rs in
    let promises = promised_lem junk rs in
    elim (Bool-cases (ltb_ℤ u.best m)) [
      | inl above ↦ inl (
          omega (
            arith,
            promises,
            majority,
            counted_bar ps round n m u.best sites rs heard safe.sound c.none_above (ground arith)
                low,
          ))
      | inr not_above ↦
          let reached : m ≤ℤ u.best = ground arith in
          elim (chosen_IsBacked ps round n junk u sites rs heard safe.sound c.chosen) [
            | inl none_yet ↦ absurd (omega (arith, subst (λ x. m ≤ℤ x) none_yet reached))
            | inr backed ↦
                let unknown = backed_unaware decisions ps _ unaware backed in
                let value = value_of_reported decisions u own (omega arith) unknown in
                subst
                  (λ (x : Command).
                    (count (could_vote m) sites ≤ length sites / 2)
                    ⊎ IsBacked ps (record { number = m; command = x }))
                  (sym value)
                  (below_reported sites ps m u.best u.command safe.guarded high reached backed)
          ]
    ]

proposed-IsSafe :
    (sites : List Site) (ps : List Proposal) (round : ℕ) (n junk : ℤ) (own : Command)
    (decisions : Map Command) (rs : List (Option PaxosMsg))
    → IsUnaware decisions ps
    → minus_one <ℤ n
    → All (λ p. p.round ≢ round) ps
    → AllHeard round n sites rs
    → length sites / 2 < (count_all count_promise (no_tally junk) rs).promised
    → IsSafe sites ps
    → IsSafe sites (
        record {
          round = round;
          number = n;
          command = value_of decisions (count_all count_promise (no_tally junk) rs) own;
        }
        ∷ ps)
proposed-IsSafe sites ps round n junk own decisions rs unaware high unused heard majority safe =
    let quorum : length sites / 2 < count (answered round n) sites =
      omega (arith, majority, promised_lem junk rs, agreeing-le_count round n sites rs heard) in
    let p : Proposal = record {
      round = round;
      number = n;
      command = value_of decisions (count_all count_promise (no_tally junk) rs) own;
    } in
    record {
      sound = All-map (IsSound ps) (IsSound (p ∷ ps)) sites (IsSound-cons p ps) safe.sound;
      quorums = (quorum, safe.quorums);
      distinct = (
        All-zip (HasQuorum sites) (λ q. q.round ≢ round) (λ q. q.number ≢ n) ps
            (λ q. fresh_number sites ps round n q safe.sound quorum) safe.quorums unused,
        safe.distinct,
      );
      above = (high, safe.above);
      guarded = (
        IsGuarded-cons sites ps p p
            (new-IsGuarded sites ps round n junk own decisions rs unaware safe heard majority),
        All-map (IsGuarded sites ps) (IsGuarded sites (p ∷ ps)) ps (IsGuarded-cons sites ps p)
            safe.guarded,
      );
    }

Step-IsSafe : {c d : System} → Step c d → IsSafe c.sites c.proposals → IsSafe d.sites d.proposals
Step-IsSafe {c} (prepared k round msg) safe =
    moved-IsSafe (prepare_site round msg) k c.sites c.proposals
      (prepare_site-IsSound c.proposals round msg) (prepare_site-could_vote round msg)
      (prepare_site-answered round msg) safe
Step-IsSafe {c} (proposed round number junk own decisions rs high unaware unused heard majority)
      safe =
    proposed-IsSafe c.sites c.proposals round number junk own decisions rs unaware high unused heard
      majority safe
Step-IsSafe {c} (accepted k round msg i) safe =
    let high = All-In (λ p. minus_one <ℤ p.number) _ c.proposals i safe.above in
    moved-IsSafe (accept_site msg) k c.sites c.proposals
      (λ s. accept_site-IsSound c.proposals msg s high (round, i)) (accept_site-could_vote msg)
      (accept_site-answered msg) safe

new_site-IsSound : (junk : ℤ) → IsSound [] (new_site junk)
unfolding Acceptor.new
new_site-IsSound junk = record {
  floor = omega arith;
  within = omega arith;
  held = inl refl;
  below = tt;
  backed = tt;
  kept = tt;
  rising = tt;
}

new_sites-IsSound : (n : ℕ) (junk : ℤ) → All (IsSound []) (replicate n (new_site junk))
new_sites-IsSound zero junk = tt
new_sites-IsSound (suc n) junk = (new_site-IsSound junk, new_sites-IsSound n junk)

pub Reach-IsSafe : (n : ℕ) (junk : ℤ) (c : System) → Reach n junk c → IsSafe c.sites c.proposals
Reach-IsSafe n junk _ started = record {
  sound = new_sites-IsSound n junk;
  quorums = tt;
  distinct = tt;
  above = tt;
  guarded = tt;
}
Reach-IsSafe n junk _ (next r step) = Step-IsSafe step (Reach-IsSafe n junk _ r)
