-- ===== src/Acceptor/History.antt =====
-- What an acceptor keeps over any row of messages: the loop of an acceptor connection.
use cs.Base.{◌≡◌, subst, Option, none, some, List, [], ◌∷◌, arith, Bool-cases, inl, inr}
use cs.Base.Int.{ℤ, pos, minus_one, ltb_ℤ, ◌≤ℤ◌, ◌<ℤ◌, eqb_ℤ_iff}
use cs.Acceptor.{Acceptor, on_prepare, on_accept, on_message, with_reply, serve}
use cs.Acceptor.Promises.{IsValid, Later, on_message-IsValid, on_message-Later}
use cs.Messages.PaxosMsg
use cs.Messages.PaxosMsg.{PaxosMsg}

-- The state after the loop is the first one, or that after the loop over the rest.
serve-state :
    (P : Acceptor → Type 0) (a : Acceptor) (msg : PaxosMsg) (msgs : List PaxosMsg)
    → P a
    → P (serve (on_message a msg).0 msgs).0
    → P (serve a (msg ∷ msgs)).0
unfolding serve
serve-state P a msg msgs here later = elim (Bool-cases (ltb_ℤ msg.phase (pos 0))) [
  | inl over ↦ rw over here
  | inr more ↦ rw more (replied ((on_message a msg).1) (serve (on_message a msg).0 msgs) later)
]
  where
    replied :
        (reply : Option PaxosMsg) (r : Acceptor × List PaxosMsg) → P r.0 → P (with_reply reply r).0
    replied none r h = h
    replied (some reply) r h = h

Later-trans : (a b c : Acceptor) → Later a b → Later b c → Later a c
Later-trans a b c h k = omega arith

pub serve-IsValid : (a : Acceptor) (msgs : List PaxosMsg) → IsValid a → IsValid (serve a msgs).0
unfolding serve
serve-IsValid a [] v = v
serve-IsValid a (msg ∷ msgs) v =
    serve-state IsValid a msg msgs v
      (serve-IsValid (on_message a msg).0 msgs (on_message-IsValid a msg v))

-- The promised and the accepted number never fall, whatever messages come in.
pub serve-Later : (a : Acceptor) (msgs : List PaxosMsg) → IsValid a → Later a (serve a msgs).0
unfolding serve
serve-Later a [] v = omega arith
serve-Later a (msg ∷ msgs) v = serve-state (Later a) a msg msgs (omega arith) (
    Later-trans a (on_message a msg).0 _ (on_message-Later a msg v)
      (serve-Later (on_message a msg).0 msgs (on_message-IsValid a msg v)))

on_prepare-promised :
    (a : Acceptor) (prepare : PaxosMsg)
    → IsValid a
    → a.promised <ℤ prepare.propose_number
    → IsValid (on_prepare a prepare).0
      × ((on_prepare a prepare).0.promised ≡ prepare.propose_number)
unfolding on_prepare
on_prepare-promised a prepare v fresh = ground arith

refuses :
    (b : Acceptor) (n : ℤ) (accept again : PaxosMsg)
    → n ≤ℤ b.promised
    → accept.propose_number <ℤ n
    → again.propose_number ≤ℤ n
    → ((on_accept b accept).0 ≡ b)
      × ((on_accept b accept).1.agree ≡ pos 0)
      × ((on_prepare b again).0 ≡ b)
      × ((on_prepare b again).1.agree ≡ pos 0)
      × (n ≤ℤ (on_prepare b again).1.propose_number)
unfolding on_prepare on_accept
refuses b n accept again h low old = ground arith

on_accept-accepted :
    (a : Acceptor) (accept : PaxosMsg)
    → IsValid a
    → accept.propose_number ≡ a.promised
    → minus_one <ℤ accept.propose_number
    → IsValid (on_accept a accept).0 × ((on_accept a accept).0.accepted ≡ accept.propose_number)
unfolding on_accept
on_accept-accepted a accept v e above = ground (arith, eqb_ℤ_iff accept.propose_number a.promised)

reports :
    (b : Acceptor) (n : ℤ) (prepare : PaxosMsg)
    → n ≤ℤ b.accepted
    → minus_one <ℤ n
    → b.promised <ℤ prepare.propose_number
    → let reply = (on_prepare b prepare).1 in
      (reply.agree ≡ pos 1)
      × (n ≤ℤ reply.accepted_proposal)
      × (reply.accepted_proposal ≡ b.accepted)
      × (PaxosMsg.get_command reply ≡ b.value)
unfolding on_prepare PaxosMsg.get_command
reports b n prepare h above fresh = ground arith

-- Once a proposal number is promised, and after any further messages, the acceptor refuses every
-- p2a message with a smaller number, and every p1a message with a number that is not greater; it
-- stays as it is, and the refused p1b names a number at least as great as the one promised.
pub promise_kept :
    (a : Acceptor) (prepare : PaxosMsg) (msgs : List PaxosMsg) (accept again : PaxosMsg)
    → IsValid a
    → a.promised <ℤ prepare.propose_number
    → accept.propose_number <ℤ prepare.propose_number
    → again.propose_number ≤ℤ prepare.propose_number
    → let b = (serve (on_prepare a prepare).0 msgs).0 in
      ((on_accept b accept).0 ≡ b)
      × ((on_accept b accept).1.agree ≡ pos 0)
      × ((on_prepare b again).0 ≡ b)
      × ((on_prepare b again).1.agree ≡ pos 0)
      × (prepare.propose_number ≤ℤ (on_prepare b again).1.propose_number)
promise_kept a prepare msgs accept again v fresh low old =
    let (w, e) = on_prepare-promised a prepare v fresh in
    let later = serve-Later (on_prepare a prepare).0 msgs w in
    refuses (serve (on_prepare a prepare).0 msgs).0 prepare.propose_number accept again
      (subst (λ t. t ≤ℤ (serve (on_prepare a prepare).0 msgs).0.promised) e later.promised) low old

-- Once a p2a message with a number above -1 is accepted, and after any further messages, a new
-- promise reports an accepted number at least as great, together with the command that the
-- acceptor then holds.
pub accepted_reported :
    (a : Acceptor) (accept : PaxosMsg) (msgs : List PaxosMsg) (prepare : PaxosMsg)
    → IsValid a
    → accept.propose_number ≡ a.promised
    → minus_one <ℤ accept.propose_number
    → let b = (serve (on_accept a accept).0 msgs).0 in
      b.promised <ℤ prepare.propose_number
      → let reply = (on_prepare b prepare).1 in
        (reply.agree ≡ pos 1)
        × (accept.propose_number ≤ℤ reply.accepted_proposal)
        × (reply.accepted_proposal ≡ b.accepted)
        × (PaxosMsg.get_command reply ≡ b.value)
accepted_reported a accept msgs prepare v e above fresh =
    let (w, f) = on_accept-accepted a accept v e above in
    let later = serve-Later (on_accept a accept).0 msgs w in
    reports (serve (on_accept a accept).0 msgs).0 accept.propose_number prepare
      (subst (λ t. t ≤ℤ (serve (on_accept a accept).0 msgs).0.accepted) f later.accepted) above
      fresh
