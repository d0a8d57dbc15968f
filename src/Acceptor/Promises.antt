-- ===== src/Acceptor/Promises.antt =====
-- What one acceptor promises and keeps, message by message.
use cs.Base.{arith, ◌≡◌, ◌⊎◌, inl, inr, refl, Bool-cases}
use cs.Base.Int.{ℤ, minus_one, ◌≤ℤ◌, eqb_ℤ_iff, eqb_ℤ}
use cs.Acceptor.{Acceptor, new, on_message, promise}
use cs.Messages.PaxosMsg
use cs.Messages.PaxosMsg.{PaxosMsg}

-- An acceptor has accepted nothing above what it has promised, and nothing below -1.
pub record IsValid (a : Acceptor) : Type 0 where
  pub floor : minus_one ≤ℤ a.accepted
  pub within : a.accepted ≤ℤ a.promised

pub new-IsValid : (junk : ℤ) → IsValid (new junk)
unfolding new
new-IsValid junk = omega arith

-- How a state may come after another.
pub record Later (a b : Acceptor) : Type 0 where
  pub promised : a.promised ≤ℤ b.promised
  pub accepted : a.accepted ≤ℤ b.accepted

pub on_message-IsValid : (a : Acceptor) (msg : PaxosMsg) → IsValid a → IsValid (on_message a msg).0
unfolding on_message
on_message-IsValid a msg v = ground (arith, eqb_ℤ_iff msg.propose_number a.promised)

pub on_message-Later : (a : Acceptor) (msg : PaxosMsg) → IsValid a → Later a (on_message a msg).0
unfolding on_message
on_message-Later a msg v = ground (arith, eqb_ℤ_iff msg.propose_number a.promised)

-- What a promise reports.
pub promise_reports :
    (a : Acceptor)
    → ((a.accepted ≡ minus_one) × ((promise a).accepted_proposal ≡ minus_one))
      ⊎ (((promise a).accepted_proposal ≡ a.accepted)
          × (PaxosMsg.get_command (promise a) ≡ a.value))
unfolding promise PaxosMsg.get_command
promise_reports a = elim (Bool-cases (eqb_ℤ a.accepted minus_one)) [
  | inl nothing ↦ inl ((eqb_ℤ_iff a.accepted minus_one).0 nothing, rw nothing refl)
  | inr value ↦ inr (rw value refl, rw value refl)
]
