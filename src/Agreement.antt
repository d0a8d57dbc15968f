-- ===== src/Agreement.antt =====
-- Many proposers and acceptors of src/ServerThread.cpp for one decision: p1a, p2a and p1b messages
-- that are delayed, lost and delivered in any order.
pub mod Counting
pub mod Sites
pub mod Rounds
pub mod Guards
pub mod Invariant
pub mod Safety
use cs.Acceptor
use cs.Acceptor.{Acceptor, on_prepare, on_accept}
use cs.Base.{
  ℕ, ◌-◌, ◌/◌, ◌<◌, ◌≡◌, ◌≢◌, Bool, true, false, ◌&&◌, ◌||◌, Option, none, some, List, [], ◌∷◌,
  if◌then◌else◌, ◌==◌, length, replicate, All, In, ◌⊎◌,
}
use cs.Base.Int.{ℤ, minus_one, ◌<ℤ◌, eqb_ℤ}
use cs.Map.{Map, find}
use cs.Messages.Command.{Command}
use cs.Messages.PaxosMsg
use cs.Messages.PaxosMsg.{PaxosMsg}
use cs.Scout.{Tally, no_tally, agrees, count_promise}
use cs.Scout.Broadcast.{has}
use cs.Scout.Counting.{count_all}

-- The p1b message that an acceptor gave to a prepare round with a number.
pub record Answer : Type 0 where
  pub round : ℕ
  pub number : ℤ
  pub reply : PaxosMsg

-- A command for a number: proposed, or accepted.
pub record Vote : Type 0 where
  pub number : ℤ
  pub command : Command

-- An acceptor, with the history of the promises that it gave and of what it accepted.
pub record Site : Type 0 where
  pub acceptor : Acceptor
  pub answers : List Answer
  pub votes : List Vote

-- What a prepare round proposed.
pub record Proposal : Type 0 where
  pub round : ℕ
  pub number : ℤ
  pub command : Command

pub record System : Type 0 where
  pub sites : List Site
  pub proposals : List Proposal

-- A p1a message of a round reaches an acceptor.
unfoldable pub prepare_site : ℕ → PaxosMsg → Site → Site
unfolding on_prepare
prepare_site round msg s =
    let (a, reply) = on_prepare s.acceptor msg in
    record s {
      acceptor = a;
      answers =
          if agrees reply
          then record { round = round; number = msg.propose_number; reply = reply } ∷ s.answers
          else s.answers;
    }

-- A p2a message reaches an acceptor.
unfoldable pub accept_site : PaxosMsg → Site → Site
unfolding on_accept PaxosMsg.get_command
accept_site msg s =
    let (a, reply) = on_accept s.acceptor msg in
    record s {
      acceptor = a;
      votes =
          if agrees reply
          then record { number = msg.propose_number; command = PaxosMsg.get_command msg } ∷ s.votes
          else s.votes;
    }

-- The site at a place; a place that there is not changes nothing.
abbrev pub at : ℕ → (Site → Site) → List Site → List Site
at k f [] = []
at k f (s ∷ sites) = if k == 0 then f s ∷ sites else s ∷ at (k - 1) f sites

-- What a round has from a site: no answer, one that does not agree, or the promise that it gave.
abbrev pub Heard : ℕ → ℤ → Site → Option PaxosMsg → Type 0
Heard round number s none = Unit {0}
Heard round number s (some r) =
    (agrees r ≡ false) ⊎ In (record { round = round; number = number; reply = r }) s.answers

abbrev pub AllHeard : ℕ → ℤ → List Site → List (Option PaxosMsg) → Type 0
AllHeard round number [] [] = Unit {0}
AllHeard round number [] (r ∷ rs) = ⊥
AllHeard round number (s ∷ sites) [] = ⊥
AllHeard round number (s ∷ sites) (r ∷ rs) = Heard round number s r × AllHeard round number sites rs

-- The command that a scout proposes after a prepare round: its own if none was reported, or if it
-- has a decision for the slot of the one reported.
unfoldable pub value_of : Map Command → Tally → Command → Command
unfolding find
value_of decisions t own =
    if eqb_ℤ t.best minus_one || has (find t.command.slot decisions) then own else t.command

-- A server that has no decision for the slot of any command proposed so far.
abbrev pub IsUnaware : Map Command → List Proposal → Type 0
IsUnaware decisions = All (λ p. find p.command.slot decisions ≡ none)

-- What can happen next. A round proposes at most once, by the answers that it counts, and its server
-- does not know a decision for the slots yet: this is about one decision.
pub data Step (c : System) : System → Type 0 where
  prepared :
      (k round : ℕ) (msg : PaxosMsg)
      → Step c (record c { sites = at k (prepare_site round msg) c.sites })
  proposed :
      (round : ℕ) (number junk : ℤ) (own : Command) (decisions : Map Command)
      (rs : List (Option PaxosMsg))
      → minus_one <ℤ number
      → IsUnaware decisions c.proposals
      → All (λ p. p.round ≢ round) c.proposals
      → AllHeard round number c.sites rs
      → length c.sites / 2 < (count_all count_promise (no_tally junk) rs).promised
      → Step c (record c {
        proposals =
            record {
              round = round;
              number = number;
              command = value_of decisions (count_all count_promise (no_tally junk) rs) own;
            }
            ∷ c.proposals;
      })
  accepted :
      (k round : ℕ) (msg : PaxosMsg)
      → In
          (record {
            round = round;
            number = msg.propose_number;
            command = PaxosMsg.get_command msg;
          })
          c.proposals
      → Step c (record c { sites = at k (accept_site msg) c.sites })

abbrev pub new_site : ℤ → Site
new_site junk = record { acceptor = Acceptor.new junk; answers = []; votes = [] }

-- `n` acceptors that have just been started.
abbrev pub start : ℕ → ℤ → System
start n junk = record { sites = replicate n (new_site junk); proposals = [] }

pub data Reach (n : ℕ) (junk : ℤ) : System → Type 0 where
  started : Reach n junk (start n junk)
  next : {c d : System} → Reach n junk c → Step c d → Reach n junk d
