-- ===== src/Stubs/Links.antt =====
-- Pairs of stub functions that talk to each other: ServerStub.cpp on one side, ClientStub.cpp on
-- the other, on two machines.
use cs.Base.{ℕ, ◌≡◌, ◌∙◌, true, List, ◌++◌, length, leb, if◌then◌else◌, arith}
use cs.Base.Int.{ℤ}
use cs.Messages.PaxosMsg
use cs.Messages.PaxosMsg.{PaxosMsg}
use cs.Socket.{Conn, returns, fault, send}
use cs.Socket.Delivery.{joined, IsDelivery, Takes, send-all}
use cs.Stubs.Client
use cs.Stubs.Server
use cs.Stubs.Exchange.{send_message-store, receive_message-Reads}
use cs.Wire.{Host, IsHost}

-- Sending a PaxosMsg from the 64-byte array is sending its encoding if the address has at most 28
-- characters, and a write past the end of the array if it has more.
pub send_paxos_msg_fits :
    (h : Host) (laws : IsHost h) (m : PaxosMsg) (buffer : List ℕ) (c : Conn)
    → length buffer ≡ 64
    → Client.send_paxos_msg h buffer m c
      ≡ (if leb (length m.client_ip) 28 then send (PaxosMsg.encode m) c else fault)
unfolding Client.send_paxos_msg PaxosMsg.size
send_paxos_msg_fits h laws m buffer c e =
    send_message-store (PaxosMsg.marshal h m) (PaxosMsg.encode m) buffer (PaxosMsg.size m) c
      (PaxosMsg.marshal-encode h laws m) (PaxosMsg.length-encode m)
    ∙ rw e (ground arith)

-- A PaxosMsg whose address has the 15 characters of the default, sent by a ClientStub on one
-- machine, goes out whole, and a ServerStub on another machine reads the same message from any
-- pieces in which those bytes arrive.
pub paxos_link :
    (h g : Host) (h_laws : IsHost h) (g_laws : IsHost g) (m : PaxosMsg) (buffer room : List ℕ)
    (answers more : List ℤ) (c : Conn)
    → PaxosMsg.IsWire m
    → length m.client_ip ≡ 15
    → length buffer ≡ 64
    → length room ≡ 64
    → c.sends ≡ answers ++ more
    → Takes answers 51
    → (bytes : List ℕ) × (Client.send_paxos_msg h buffer m c
        ≡ returns true (record c { sends = more; sent = c.sent ++ bytes }))
      × ((chunks later : List (List ℕ)) (d : Conn)
          → d.arrivals ≡ chunks ++ later
          → IsDelivery chunks
          → joined chunks ≡ bytes
          → Server.receive_paxos_msg g room d ≡ returns m (record d { arrivals = later }))
unfolding Server.receive_paxos_msg PaxosMsg.size
paxos_link h g h_laws g_laws m buffer room answers more c w e eb er es t = (
  PaxosMsg.encode m,
  send_paxos_msg_fits h h_laws m buffer c eb
      ∙ rw e (send-all answers more (PaxosMsg.encode m) c es (rw (PaxosMsg.length-encode m, e) t)),
  λ chunks later d ed del j.
      receive_message-Reads PaxosMsg.new m (PaxosMsg.unmarshal g) (PaxosMsg.encode m) room 51 chunks
        later d (PaxosMsg.unmarshal-Reads g g_laws m w) (PaxosMsg.length-encode m ∙ rw e)
        (omega arith) ed del j,
)
