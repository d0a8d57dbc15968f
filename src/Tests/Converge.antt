-- ===== src/Tests/Converge.antt =====
-- Two learners of src/ServerThread.cpp that get the same commands in different orders.
use cs.Base.{◌≡◌, ◌≢◌, refl, sym, ap, ◌∙◌, inl, inr, List, [], ◌∷◌, some, arith}
use cs.Base.Int.{ℤ, pos, pos_part}
use cs.Learner
use cs.Learner.{Learner}
use cs.Learner.Convergence.{learn_msgs, learners_converge}
use cs.Learner.Decided.{AllIn, OnePerSlot}
use cs.Messages.Command.{Command}

abbrev for_slot : ℤ → Command
for_slot slot = record {
  slot = slot;
  command_id = pos 9;
  client_ip = [];
  customer_id = pos 3;
  order_id = pos 0;
}

abbrev in_order : List Command
in_order = for_slot (pos 1) ∷ for_slot (pos 2) ∷ []

abbrev late_and_twice : List Command
late_and_twice = for_slot (pos 2) ∷ for_slot (pos 1) ∷ for_slot (pos 2) ∷ []

to_late : AllIn in_order late_and_twice
to_late c (inl e) = inr (inl e)
to_late c (inr (inl e)) = inl e
to_late c (inr (inr no_more)) = absurd no_more

from_late : AllIn late_and_twice in_order
from_late c (inl e) = inr (inl e)
from_late c (inr (inl e)) = inl e
from_late c (inr (inr (inl e))) = inr (inl e)
from_late c (inr (inr (inr no_more))) = absurd no_more

-- The slot of each.
apart : (c d : Command) → for_slot (pos 1) ≡ c → for_slot (pos 2) ≡ d → c.slot ≢ d.slot
apart c d e f same = absurd (
    omega (
      arith,
      ap (λ (x : Command). pos_part x.slot) e,
      ap (λ (x : Command). pos_part x.slot) f,
      ap pos_part same,
    ))

one_each : OnePerSlot in_order
one_each c d (inl e) (inl f) same = sym e ∙ f
one_each c d (inl e) (inr (inl f)) same = absurd (apart c d e f same)
one_each c d (inr (inl e)) (inl f) same = absurd (apart d c f e (sym same))
one_each c d (inr (inl e)) (inr (inl f)) same = sym e ∙ f
one_each c d (inr (inr no_more)) j same = absurd no_more
one_each c d i (inr (inr no_more)) same = absurd no_more

low : (n : ℤ) → pos_part n ≡ 1 → n ≢ pos 2147483647
low n e f = absurd (omega (arith, ap pos_part f))

low_two : (n : ℤ) → pos_part n ≡ 2 → n ≢ pos 2147483647
low_two n e f = absurd (omega (arith, ap pos_part f))

learners_converge_example :
    (l : Learner) × (m : Learner) × (Learner.serve (learn_msgs in_order) Learner.new ≡ some l)
    × (Learner.serve (learn_msgs late_and_twice) Learner.new ≡ some m)
    × (l.decisions ≡ m.decisions)
    × (l.slot_out ≡ m.slot_out)
learners_converge_example =
    learners_converge in_order late_and_twice to_late from_late one_each
      (low (pos 1) refl, (low_two (pos 2) refl, tt))
      (low_two (pos 2) refl, (low (pos 1) refl, (low_two (pos 2) refl, tt)))
