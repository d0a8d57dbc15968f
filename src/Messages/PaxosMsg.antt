-- ===== src/Messages/PaxosMsg.antt =====
-- class PaxosMsg (src/Messages.h, src/Messages.cpp): the message of every phase of the protocol.
use cs.Base.{ℕ, ◌+◌, ◌<◌, ◌^◌, append-nil, ◌≡◌, ◌∷◌, ◌++◌, [], List, length, arith}
use cs.Base.Int.{ℤ, pos, minus_one}
use cs.Base.Word.{IsInt}
use cs.Messages.Command
use cs.Messages.Command.{Command, default_ip}
use cs.Wire.{
  Host, IsHost, Writer, store, ◌>>◌, put_int, Reader, pure, ◌>>=◌, get_int, get_chars, ints_then,
  ints_bytes,
}
use cs.Wire.Laws.{
  Reads, Reads-pure, Reads-bind, IsText, get_chars-Reads, get_int-then, put_int-store, store-store,
  length-ints_then, length-ints_bytes,
}
use cs.Base.{length-append}

pub record PaxosMsg : Type 0 where
  pub phase : ℤ
  pub agree : ℤ
  pub propose_number : ℤ
  pub accepted_proposal : ℤ
  pub slot_number : ℤ
  pub command_id : ℤ
  pub client_ip : List ℕ
  pub customer_id : ℤ
  pub order_id : ℤ

unfoldable pub new : PaxosMsg
new = record {
  phase = minus_one;
  agree = pos 0;
  propose_number = minus_one;
  accepted_proposal = minus_one;
  slot_number = minus_one;
  command_id = minus_one;
  client_ip = default_ip;
  customer_id = minus_one;
  order_id = minus_one;
}

unfoldable pub of_phase : ℤ → PaxosMsg
unfolding new
of_phase phase = record new { phase = phase }

unfoldable pub marshal : Host → PaxosMsg → Writer
marshal h m =
    put_int h m.phase
    >> put_int h m.agree
    >> put_int h m.propose_number
    >> put_int h m.accepted_proposal
    >> put_int h m.slot_number
    >> put_int h m.command_id
    >> put_int h (pos (length m.client_ip))
    >> store m.client_ip
    >> put_int h m.customer_id
    >> put_int h m.order_id

unfoldable pub unmarshal : Host → Reader PaxosMsg
unmarshal h = do
  phase ← get_int h
  agree ← get_int h
  propose_number ← get_int h
  accepted_proposal ← get_int h
  slot_number ← get_int h
  command_id ← get_int h
  ip_length ← get_int h
  client_ip ← get_chars ip_length
  customer_id ← get_int h
  order_id ← get_int h
  pure (record {
    phase = phase;
    agree = agree;
    propose_number = propose_number;
    accepted_proposal = accepted_proposal;
    slot_number = slot_number;
    command_id = command_id;
    client_ip = client_ip;
    customer_id = customer_id;
    order_id = order_id;
  })

unfoldable pub set_agree : PaxosMsg → ℤ → PaxosMsg
set_agree m agree = record m { agree = agree }

unfoldable pub set_proposal_number : PaxosMsg → ℤ → PaxosMsg
set_proposal_number m n = record m { propose_number = n }

unfoldable pub set_accepted_proposal : PaxosMsg → ℤ → PaxosMsg
set_accepted_proposal m n = record m { accepted_proposal = n }

unfoldable pub set_command : PaxosMsg → Command → PaxosMsg
set_command m cmd = record m {
  slot_number = cmd.slot;
  command_id = cmd.command_id;
  client_ip = cmd.client_ip;
  customer_id = cmd.customer_id;
  order_id = cmd.order_id;
}

unfoldable pub get_command : PaxosMsg → Command
unfolding Command.of_fields
get_command m = Command.of_fields m.slot_number m.command_id m.client_ip m.customer_id m.order_id

unfoldable pub size : PaxosMsg → ℕ
size m = 4 + 4 + 4 + 4 + 4 + 4 + 4 + length m.client_ip + 4 + 4

-- The bytes on the wire.
unfoldable pub encode : PaxosMsg → List ℕ
encode m =
    ints_then
      (m.phase
        ∷ m.agree
        ∷ m.propose_number
        ∷ m.accepted_proposal
        ∷ m.slot_number
        ∷ m.command_id
        ∷ pos (length m.client_ip)
        ∷ [])
      (m.client_ip ++ ints_bytes (m.customer_id ∷ m.order_id ∷ []))

-- Each field is a value of the C++ type, and the text is one that a C string can hold.
pub record IsWire (m : PaxosMsg) : Type 0 where
  pub phase : IsInt m.phase
  pub agree : IsInt m.agree
  pub propose_number : IsInt m.propose_number
  pub accepted_proposal : IsInt m.accepted_proposal
  pub slot_number : IsInt m.slot_number
  pub command_id : IsInt m.command_id
  pub ip_length : length m.client_ip < 2 ^ 31
  pub client_ip : IsText m.client_ip
  pub customer_id : IsInt m.customer_id
  pub order_id : IsInt m.order_id

module _ (h : Host) (laws : IsHost h) where
  pub marshal-encode : (m : PaxosMsg) → marshal h m ≡ store (encode m)
  unfolding marshal encode ints_then ints_bytes
  marshal-encode m = simp (put_int-store h laws, store-store, append-nil)

  pub unmarshal-Reads : (m : PaxosMsg) → IsWire m → Reads (unmarshal h) (encode m) m
  unfolding unmarshal encode ints_then ints_bytes
  unmarshal-Reads m w = get_int-then h laws _ _ _ _ w.phase (
      get_int-then h laws _ _ _ _ w.agree (
        get_int-then h laws _ _ _ _ w.propose_number (
          get_int-then h laws _ _ _ _ w.accepted_proposal (
            get_int-then h laws _ _ _ _ w.slot_number (
              get_int-then h laws _ _ _ _ w.command_id (
                get_int-then h laws _ _ _ _ (omega (arith, w.ip_length)) (
                  Reads-bind (get_chars (pos (length m.client_ip))) _ _ _ _ _
                    (get_chars-Reads m.client_ip w.client_ip)
                    (get_int-then h laws _ _ _ _ w.customer_id
                      (get_int-then h laws _ _ _ _ w.order_id (Reads-pure m))))))))))

pub length-encode : (m : PaxosMsg) → length (encode m) ≡ size m
unfolding encode size
length-encode m = omega (
  arith,
  length-ints_then
      (m.phase
        ∷ m.agree
        ∷ m.propose_number
        ∷ m.accepted_proposal
        ∷ m.slot_number
        ∷ m.command_id
        ∷ pos (length m.client_ip)
        ∷ [])
      (m.client_ip ++ ints_bytes (m.customer_id ∷ m.order_id ∷ [])),
  length-append m.client_ip (ints_bytes (m.customer_id ∷ m.order_id ∷ [])),
  length-ints_bytes (m.customer_id ∷ m.order_id ∷ []),
)
