-- ===== src/Scout/Counting.antt =====
-- What a round over the stubs counts, against the plain list of the answers of the network.
use cs.Base.{
  ℕ, ◌+◌, ◌≡◌, refl, ◌⊎◌, inl, inr, Bool, true, false, Option, none, some, List, [], ◌∷◌,
  if◌then◌else◌, arith, All, Bool-cases, sym, ◌∙◌,
}
use cs.Base.Int.{ℤ, ltb_ℤ, ◌≤ℤ◌, le_trans_ℤ}
use cs.Map
use cs.Map.{Map}
use cs.Messages.Command.{Command}
use cs.Messages.PaxosMsg
use cs.Messages.PaxosMsg.{PaxosMsg}
use cs.Scout.{Net, Tally, agrees, count_promise, count_accept, Round, add_stub, round, exchanged}

module _ {W : Type 0} (net : Net W) where
  abbrev pub one_reply : ℤ → Bool × W → Option PaxosMsg × W
  one_reply stub (true, w) = let (m, w') = net.receive stub w in (some m, w')
  one_reply stub (false, w) = (none, w)

  -- Every stub in turn: the message that came back, or `none` where the send failed.
  unfoldable pub replies : PaxosMsg → Map ℤ → W → List (Option PaxosMsg)
  replies msg [] w = []
  replies msg ((id, stub) ∷ stubs) w =
      let (r, w') = one_reply stub (net.send stub msg w) in r ∷ replies msg stubs w'

  unfoldable pub world_after : PaxosMsg → Map ℤ → W → W
  world_after msg [] w = w
  world_after msg ((id, stub) ∷ stubs) w =
      let (r, w') = one_reply stub (net.send stub msg w) in world_after msg stubs w'

-- Counting the answers one after the other.
unfoldable pub count_all : {T : Type 0} → (PaxosMsg → T → T) → T → List (Option PaxosMsg) → T
count_all count t [] = t
count_all count t (none ∷ rs) = count_all count t rs
count_all count t (some m ∷ rs) = count_all count (count m t) rs

-- The stubs that answered.
unfoldable pub answering : Map ℤ → List (Option PaxosMsg) → Map ℤ
answering [] rs = []
answering (s ∷ stubs) [] = []
answering (s ∷ stubs) (none ∷ rs) = answering stubs rs
answering (s ∷ stubs) (some m ∷ rs) = s ∷ answering stubs rs

-- The other map without the ids of those that did not.
unfoldable pub without_silent : Map ℤ → List (Option PaxosMsg) → Map ℤ → Map ℤ
unfolding Map.erase
without_silent [] rs others = others
without_silent (s ∷ stubs) [] others = others
without_silent ((id, stub) ∷ stubs) (none ∷ rs) others =
    without_silent stubs rs (Map.erase id others)
without_silent (s ∷ stubs) (some m ∷ rs) others = without_silent stubs rs others

module _ {W T : Type 0} (net : Net W) (msg : PaxosMsg) (count : PaxosMsg → T → T) where
  -- What the loop comes to, by the answers.
  abbrev pub by_replies : Map ℤ → List (Option PaxosMsg) → Map ℤ → T → W → Round T W
  by_replies stubs rs others t w = record {
    stubs = answering stubs rs;
    others = without_silent stubs rs others;
    tally = count_all count t rs;
    world = w;
  }

  round_step :
      (id stub : ℤ) (stubs others : Map ℤ) (t : T) (sent : Bool × W)
      → ((o : Map ℤ) (u : T) (v : W)
          → round net msg count stubs o u v
            ≡ by_replies stubs (replies net msg stubs v) o u (world_after net msg stubs v))
      → (let (kept, o, u, v) = exchanged net count id stub t others sent in
          add_stub kept id stub (round net msg count stubs o u v))
        ≡ by_replies
            ((id, stub) ∷ stubs)
            ((one_reply net stub sent).0 ∷ replies net msg stubs (one_reply net stub sent).1)
            others
            t
            (world_after net msg stubs (one_reply net stub sent).1)
  unfolding count_all answering without_silent
  round_step id stub stubs others t (true, w) ih = rw ih
  round_step id stub stubs others t (false, w) ih = rw ih

  -- The loop keeps the stubs that answer, takes the others' servers out of the other map, and
  -- counts exactly the messages that come back.
  pub round_lem :
      (stubs others : Map ℤ) (t : T) (w : W)
      → round net msg count stubs others t w
        ≡ by_replies stubs (replies net msg stubs w) others t (world_after net msg stubs w)
  unfolding round replies world_after count_all answering without_silent
  round_lem [] others t w = refl
  round_lem ((id, stub) ∷ stubs) others t w =
      round_step id stub stubs others t (net.send stub msg w) (round_lem stubs)

agree_one : PaxosMsg → ℕ
agree_one m = if agrees m then 1 else 0

-- How many of the answers agree, and how many answers there are.
unfoldable pub agreeing : List (Option PaxosMsg) → ℕ
unfolding agree_one
agreeing [] = 0
agreeing (none ∷ rs) = agreeing rs
agreeing (some m ∷ rs) = agree_one m + agreeing rs

unfoldable pub answers : List (Option PaxosMsg) → ℕ
answers [] = 0
answers (none ∷ rs) = answers rs
answers (some m ∷ rs) = 1 + answers rs

-- No agreeing answer reports an accepted proposal above `best`.
abbrev pub NoneAbove : ℤ → Option PaxosMsg → Type 0
NoneAbove best none = Unit {0}
NoneAbove best (some m) = agrees m ≡ true → m.accepted_proposal ≤ℤ best

pub NoneAbove-mono :
    (a b : ℤ) (rs : List (Option PaxosMsg)) → a ≤ℤ b → All (NoneAbove a) rs → All (NoneAbove b) rs
NoneAbove-mono a b [] h al = tt
NoneAbove-mono a b (none ∷ rs) h al = (tt, NoneAbove-mono a b rs h al.1)
NoneAbove-mono a b (some m ∷ rs) h al =
    (λ g. le_trans_ℤ m.accepted_proposal a b (al.0 g) h, NoneAbove-mono a b rs h al.1)

-- One of the agreeing answers reports `best` with the command.
abbrev pub Reported : ℤ → Command → List (Option PaxosMsg) → Type 0
Reported best cmd [] = ⊥
Reported best cmd (none ∷ rs) = Reported best cmd rs
Reported best cmd (some m ∷ rs) =
    ((agrees m ≡ true) × (m.accepted_proposal ≡ best) × (PaxosMsg.get_command m ≡ cmd))
    ⊎ Reported best cmd rs

-- A tally `u` after the answers `rs` were counted onto `t`.
pub record Counted (t u : Tally) (rs : List (Option PaxosMsg)) : Type 0 where
  pub promised : u.promised ≡ t.promised + agreeing rs
  pub active : u.active ≡ t.active + answers rs
  pub rising : t.best ≤ℤ u.best
  pub none_above : All (NoneAbove u.best) rs
  pub chosen : ((u.best ≡ t.best) × (u.command ≡ t.command)) ⊎ Reported u.best u.command rs

abbrev Fresh : Tally → PaxosMsg → Tally → Type 0
Fresh t m u =
    ((u.best ≡ t.best) × (u.command ≡ t.command))
    ⊎ ((agrees m ≡ true) × (m.accepted_proposal ≡ u.best) × (PaxosMsg.get_command m ≡ u.command))

count_promise_cases : (t : Tally) (m : PaxosMsg) → Fresh t m (count_promise m t)
unfolding count_promise
count_promise_cases t m = elim (Bool-cases (agrees m)) [
  | inr no_promise ↦ inl (rw no_promise, rw no_promise)
  | inl agreed ↦ elim (Bool-cases (ltb_ℤ t.best m.accepted_proposal)) [
    | inl higher ↦ inr (agreed, rw (agreed, higher), rw (agreed, higher))
    | inr lower ↦ inl (rw (agreed, lower), rw (agreed, lower))
  ]
]

chosen_after :
    (t u : Tally) (m : PaxosMsg) (rs : List (Option PaxosMsg))
    → Fresh t m (count_promise m t)
    → ((u.best ≡ (count_promise m t).best) × (u.command ≡ (count_promise m t).command))
      ⊎ Reported u.best u.command rs
    → ((u.best ≡ t.best) × (u.command ≡ t.command)) ⊎ Reported u.best u.command (some m ∷ rs)
chosen_after t u m rs f (inr later) = inr (inr later)
chosen_after t u m rs (inl (e, g)) (inl (b, c)) = inl (b ∙ e, c ∙ g)
chosen_after t u m rs (inr (a, e, g)) (inl (b, c)) = inr (inl (a, e ∙ sym b, g ∙ sym c))

Counted-some :
    (t u : Tally) (m : PaxosMsg) (rs : List (Option PaxosMsg))
    → Counted (count_promise m t) u rs
    → Counted t u (some m ∷ rs)
unfolding count_promise agreeing answers
Counted-some t u m rs c = record {
  promised = ground (arith, c.promised);
  active = ground (arith, c.active);
  rising = ground (arith, c.rising);
  none_above = (λ g. ground (arith, c.rising), c.none_above);
  chosen = chosen_after t u m rs (count_promise_cases t m) c.chosen;
}

-- Counting p1b messages: the promises and the answers are added up, and the command kept is one
-- reported with the highest accepted proposal, or the former one if none is higher.
pub count_promise-Counted :
    (t : Tally) (rs : List (Option PaxosMsg)) → Counted t (count_all count_promise t rs) rs
unfolding count_all agreeing answers
count_promise-Counted t [] = record {
  promised = omega arith;
  active = omega arith;
  rising = omega arith;
  none_above = tt;
  chosen = inl (refl, refl);
}
count_promise-Counted t (none ∷ rs) =
    let c = count_promise-Counted t rs in
    record {
      promised = c.promised;
      active = c.active;
      rising = c.rising;
      none_above = (tt, c.none_above);
      chosen = c.chosen;
    }
count_promise-Counted t (some m ∷ rs) =
    Counted-some t _ m rs (count_promise-Counted (count_promise m t) rs)

pub count_accept_lem :
    (a b : ℕ) (rs : List (Option PaxosMsg))
    → count_all count_accept (a, b) rs ≡ (a + agreeing rs, b + answers rs)
unfolding count_all count_accept agreeing answers
count_accept_lem a b [] = ground arith
count_accept_lem a b (none ∷ rs) = count_accept_lem a b rs
count_accept_lem a b (some m ∷ rs) =
    ground (arith, count_accept_lem (a + 1) (b + 1) rs, count_accept_lem a (b + 1) rs)
