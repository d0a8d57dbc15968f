-- ===== src/Scout/Slots.antt =====
-- The slot of the factory's own command: the search of LaptopFactory::ScoutBrocasting
-- (src/ServerThread.cpp) in decisionMap.
use cs.Base.{ℕ, zero, suc, ◌<◌, ◌≡◌, ◌≢◌, refl, none, some, Option-cases, inl, inr, length, arith}
use cs.Base.Int.{ℤ}
use cs.Base.Word.{IsInt, inc}
use cs.Map.{Map, find}
use cs.Map.Slots.{
  max_int, slots_from, slots_from-le, slots_from-found, advance, inc-IsInt, inc-lt, IsFirstFree,
}
use cs.Messages.Command
use cs.Messages.Command.{Command}
use cs.Messages.LaptopInfo.{LaptopInfo}
use cs.Scout.{Net, Scout}
use cs.Scout.Broadcast.{free_slot, own_command}

IsFirstFree-next :
    (m : Map Command) (c : Command) (start slot : ℤ)
    → find start m ≡ some c
    → IsFirstFree m (inc start) slot
    → IsFirstFree m start slot
unfolding advance
IsFirstFree-next m c start slot e (n, p, q, r) = (suc n, p, q, earlier)
  where
    earlier : (k : ℕ) → k < suc n → find (advance k start) m ≢ none
    earlier zero h = λ f. cc
    earlier (suc k) h = r k (omega arith)

free_slot-IsFirstFree :
    (fuel : ℕ) (m : Map Command) (slot : ℤ)
    → IsInt slot
    → find max_int m ≡ none
    → slots_from slot m < fuel
    → IsFirstFree m slot (free_slot fuel m slot)
unfolding free_slot
free_slot-IsFirstFree zero m slot i top h = absurd (omega arith)
free_slot-IsFirstFree (suc fuel) m slot i top h = elim (Option-cases (find slot m)) [
  | inl e ↦ rw e (0, unfold advance in refl, e, λ k lt. absurd (omega arith))
  | inr (c, e) ↦ rw e (
      IsFirstFree-next m c slot _ e (
        free_slot-IsFirstFree fuel m (inc slot) (inc-IsInt slot) top (
          omega (
            arith,
            slots_from-found slot (inc slot) m c e (inc-lt slot i (λ (q : slot ≡ max_int). cc)),
          ))))
]

module _ {W : Type 0} (net : Net W) where
  -- The factory's own command carries the order of the laptop, and its slot is the first one from
  -- slot_in on that has no decision; slot_in moves there. (Slot INT_MAX has no decision.)
  pub own_command-IsFirstFree :
      (junk : ℤ) (laptop : LaptopInfo) (s : Scout) (w : W)
      → IsInt s.slot_in
      → find max_int (net.decisions w) ≡ none
      → let (cmd, s', w') = own_command net junk laptop s w in
        IsFirstFree (net.decisions w) s.slot_in cmd.slot
        × (s'.slot_in ≡ cmd.slot)
        × (cmd.customer_id ≡ laptop.customer_id)
        × (cmd.order_id ≡ laptop.order_number)
  unfolding own_command Command.of_laptop Command.set_slot Command.set_command_id
  own_command-IsFirstFree junk laptop s w i top = (
    free_slot-IsFirstFree (suc (length (net.decisions w))) (net.decisions w) s.slot_in i top
        (omega (arith, slots_from-le s.slot_in (net.decisions w))),
    refl,
    refl,
    refl,
  )
