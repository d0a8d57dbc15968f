-- ===== src/Tests/Agreement.antt =====
-- Two rounds over three acceptors.
use cs.Acceptor
use cs.Agreement.{
  System, prepared, proposed, accepted, Reach, started, next, prepare_site, accept_site, value_of,
}
use cs.Agreement.Counting.{count}
use cs.Agreement.Safety.{IsChosen, voted, agreement}
use cs.Base.{◌≡◌, refl, none, some, [], ◌∷◌, inl, inr, arith}
use cs.Base.Int.{ℤ, pos}
use cs.Map.{find}
use cs.Messages.Command
use cs.Messages.Command.{Command}
use cs.Messages.PaxosMsg
use cs.Messages.PaxosMsg.{PaxosMsg}
use cs.Scout.{no_tally, count_promise}
use cs.Scout.Counting.{count_all}

abbrev first : Command
first = Command.of_fields (pos 1) (pos 8) Command.default_ip (pos 3) (pos 0)

abbrev second : Command
second = Command.of_fields (pos 1) (pos 9) Command.default_ip (pos 4) (pos 0)

abbrev p1a : ℤ → PaxosMsg
p1a n = PaxosMsg.set_proposal_number (PaxosMsg.of_phase (pos 1)) n

abbrev p2a : ℤ → PaxosMsg
p2a n = PaxosMsg.set_proposal_number (PaxosMsg.set_command (PaxosMsg.of_phase (pos 3)) first) n

-- What a promise with nothing to report looks like, and one that reports the first command.
abbrev plain : PaxosMsg
plain = PaxosMsg.set_agree (PaxosMsg.of_phase (pos 2)) (pos 1)

abbrev reporting : PaxosMsg
reporting = PaxosMsg.set_command (PaxosMsg.set_accepted_proposal plain (pos 0)) first

-- The first round has promises of the acceptors 0 and 1, and both accept its command. The second
-- round hears of it from the acceptor 1, and has it accepted by the acceptors 1 and 2.
two_rounds : (c : System) × Reach 3 (pos 0) c × IsChosen c (pos 0) first × IsChosen c (pos 1) first
unfolding prepare_site accept_site value_of find count_all count_promise no_tally Acceptor.new voted
    count PaxosMsg.set_proposal_number PaxosMsg.set_command PaxosMsg.of_phase PaxosMsg.set_agree
    PaxosMsg.set_accepted_proposal PaxosMsg.get_command Command.of_fields
two_rounds = (
  _,
  next
      (next
        (next
          (next
            (next
              (next
                (next
                  (next
                    (next (next started (prepared 0 0 (p1a (pos 0)))) (prepared 1 0 (p1a (pos 0))))
                    (proposed 0 (pos 0) (pos 0) first [] (some plain ∷ some plain ∷ none ∷ [])
                      (omega arith) tt tt (inr (inl refl), (inr (inl refl), (tt, tt)))
                      (omega arith)))
                  (accepted 0 0 (p2a (pos 0)) (inl refl)))
                (accepted 1 0 (p2a (pos 0)) (inl refl)))
              (prepared 1 1 (p1a (pos 1))))
            (prepared 2 1 (p1a (pos 1))))
          (proposed 1 (pos 1) (pos 0) second [] (none ∷ some reporting ∷ some plain ∷ [])
            (omega arith) (refl, tt) ((λ e. cc), tt) (tt, (inr (inl refl), (inr (inl refl), tt)))
            (omega arith)))
        (accepted 1 1 (p2a (pos 1)) (inl refl)))
      (accepted 2 1 (p2a (pos 1)) (inl refl)),
  omega arith,
  omega arith,
)

agreement_example : first ≡ PaxosMsg.get_command reporting
unfolding PaxosMsg.get_command PaxosMsg.set_command PaxosMsg.set_accepted_proposal PaxosMsg.of_phase
    PaxosMsg.set_agree Command.of_fields
agreement_example =
    agreement 3 (pos 0) two_rounds.0 (pos 0) (pos 1) first first two_rounds.1 two_rounds.2
      two_rounds.3
