-- ===== src/Engineer/Queue.antt =====
-- The queue of src/ServerThread.cpp between CreateRegularLaptop, which many engineers run at the
-- same time, and the loop of ScoutThread.
use cs.Base.{
  ◌⊎◌, inl, inr, ℕ, ◌≡◌, refl, sym, ap, subst, ◌∙◌, Option, none, some, List, [], ◌∷◌, ◌++◌,
  append_assoc,
}
use cs.Base.Int.{ℤ, negsuc}
use cs.Engineer.{new_laptop}
use cs.Messages.CustomerRequest.{CustomerRequest}
use cs.Messages.LaptopInfo
use cs.Messages.LaptopInfo.{LaptopInfo}
use cs.Scout.{Net, Scout}
use cs.Scout.Broadcast.{Outcome, waiting, refused, finished, broadcast, answer}

-- erq, the variables of the scout, the world it meets, and the laptops that the promises of the
-- requests taken so far have been set to, in the order of the queue.
pub record Desk (W : Type 0) : Type 0 where
  pub queue : List LaptopInfo
  pub scout : Scout
  pub world : W
  pub answers : List LaptopInfo

-- erq.push
unfoldable pub push : {W : Type 0} → LaptopInfo → Desk W → Desk W
push l d = record d { queue = d.queue ++ l ∷ [] }

module _ {W : Type 0} (net : Net W) (jumps rounds : ℕ) (junk id : ℤ) where
  abbrev set_value : List LaptopInfo → Desk W → Option (LaptopInfo × Scout × W) → Option (Desk W)
  set_value rest d none = none
  set_value rest d (some (l, s, w)) =
      some (record { queue = rest; scout = s; world = w; answers = d.answers ++ l ∷ [] })

  abbrev turn_with : List LaptopInfo → Desk W → Option (Desk W)
  turn_with [] d = none
  turn_with (l ∷ rest) d =
      set_value rest d (answer net id l (broadcast net jumps rounds junk l d.scout d.world))

  -- One round of ScoutThread: `none` while it waits, for a request or in the broadcast.
  unfoldable pub turn : Desk W → Option (Desk W)
  unfolding broadcast answer
  turn d = turn_with d.queue d

  -- What can happen next: an engineer pushes an order, the scout has a round, or other threads and
  -- servers change the world.
  pub data Step : List LaptopInfo → Desk W → List LaptopInfo → Desk W → Type 0 where
    ordered :
        (order : CustomerRequest) (engineer_id : ℤ) (ps : List LaptopInfo) (d : Desk W)
        → Step ps d
            (ps ++ new_laptop order engineer_id ∷ [])
            (push (new_laptop order engineer_id) d)
    served : (ps : List LaptopInfo) (d e : Desk W) → turn d ≡ some e → Step ps d ps e
    elsewhere : (w : W) (ps : List LaptopInfo) (d : Desk W) → Step ps d ps (record d { world = w })

  -- The laptops pushed since the start, in order, and the desk that has come of it.
  pub data Reach (s : Scout) (w : W) : List LaptopInfo → Desk W → Type 0 where
    opened : Reach s w [] (record { queue = []; scout = s; world = w; answers = [] })
    stepped :
        {ps qs : List LaptopInfo} {d e : Desk W} → Reach s w ps d → Step ps d qs e → Reach s w qs e

  -- The answer to a request: the same laptop, with the admin set.
  abbrev pub IsAnswer : LaptopInfo → LaptopInfo → Type 0
  IsAnswer l m =
      (m ≡ record l { admin_id = m.admin_id }) × ((m.admin_id ≡ id) ⊎ (m.admin_id ≡ negsuc 4))

  abbrev pub AreAnswers : List LaptopInfo → List LaptopInfo → Type 0
  AreAnswers [] [] = Unit {0}
  AreAnswers [] (m ∷ ms) = ⊥
  AreAnswers (l ∷ ls) [] = ⊥
  AreAnswers (l ∷ ls) (m ∷ ms) = IsAnswer l m × AreAnswers ls ms

  AreAnswers-append :
      (ls ms : List LaptopInfo) (l m : LaptopInfo)
      → AreAnswers ls ms
      → IsAnswer l m
      → AreAnswers (ls ++ l ∷ []) (ms ++ m ∷ [])
  AreAnswers-append [] [] l m a b = (b, tt)
  AreAnswers-append [] (x ∷ ms) l m a b = absurd a
  AreAnswers-append (x ∷ ls) [] l m a b = absurd a
  AreAnswers-append (x ∷ ls) (y ∷ ms) l m a b = (a.0, AreAnswers-append ls ms l m a.1 b)

  -- The requests answered are the first ones pushed, and the queue has the others.
  abbrev pub InOrder : List LaptopInfo → Desk W → Type 0
  InOrder ps d = (taken : List LaptopInfo) × (ps ≡ taken ++ d.queue) × AreAnswers taken d.answers

  Answered : LaptopInfo → Option (LaptopInfo × Scout × W) → Type 0
  Answered l none = Unit {0}
  Answered l (some (m, s, w)) = IsAnswer l m

  answer-Answered : (l : LaptopInfo) (o : Outcome W) → Answered l (answer net id l o)
  unfolding Answered answer LaptopInfo.set_admin_id
  answer-Answered l waiting = tt
  answer-Answered l (refused s w) = (refl, inr refl)
  answer-Answered l (finished s w) = (refl, inl refl)

  TurnInOrder : List LaptopInfo → Option (Desk W) → Type 0
  TurnInOrder ps none = Unit {0}
  TurnInOrder ps (some e) = InOrder ps e

  set_value-TurnInOrder :
      (ps taken rest : List LaptopInfo) (l : LaptopInfo) (d : Desk W)
      (o : Option (LaptopInfo × Scout × W))
      → ps ≡ taken ++ l ∷ rest
      → AreAnswers taken d.answers
      → Answered l o
      → TurnInOrder ps (set_value rest d o)
  unfolding TurnInOrder Answered
  set_value-TurnInOrder ps taken rest l d none e a b = tt
  set_value-TurnInOrder ps taken rest l d (some (m, s, w)) e a b = (
    taken ++ l ∷ [],
    e ∙ sym (append_assoc taken (l ∷ []) rest),
    AreAnswers-append taken d.answers l m a b,
  )

  turn_with-TurnInOrder :
      (ps taken queue : List LaptopInfo) (d : Desk W)
      → ps ≡ taken ++ queue
      → AreAnswers taken d.answers
      → TurnInOrder ps (turn_with queue d)
  unfolding TurnInOrder
  turn_with-TurnInOrder ps taken [] d e a = tt
  turn_with-TurnInOrder ps taken (l ∷ rest) d e a =
      set_value-TurnInOrder ps taken rest l d _ e a
        (answer-Answered l (broadcast net jumps rounds junk l d.scout d.world))

  Step-InOrder :
      {ps qs : List LaptopInfo} {d e : Desk W} → Step ps d qs e → InOrder ps d → InOrder qs e
  unfolding push turn TurnInOrder
  Step-InOrder (ordered order engineer_id ps d) (taken, p, a) =
      let l = new_laptop order engineer_id in
      (taken, ap (λ (x : List LaptopInfo). x ++ l ∷ []) p ∙ append_assoc taken d.queue (l ∷ []), a)
  Step-InOrder (served ps d e t) (taken, p, a) =
      subst (TurnInOrder ps) t (turn_with-TurnInOrder ps taken d.queue d p a)
  Step-InOrder (elsewhere w ps d) (taken, p, a) = (taken, p, a)

  -- Whatever the engineers and the scout do, and in whatever order: the requests that have an answer
  -- are the first ones pushed, each with its own laptop, whose admin is the factory or -5, and all
  -- the others wait in the queue, in the order in which they were pushed.
  pub Reach-InOrder :
      (s : Scout) (w : W) (ps : List LaptopInfo) (d : Desk W) → Reach s w ps d → InOrder ps d
  Reach-InOrder s w _ _ opened = ([], refl, tt)
  Reach-InOrder s w _ _ (stepped r step) = Step-InOrder step (Reach-InOrder s w _ _ r)
