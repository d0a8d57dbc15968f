-- ===== src/Stubs/Orders.antt =====
-- A customer's order over a connection: ClientStub::Order against ServerStub::ReceiveRequest and
-- ServerStub::SendLaptop.
use cs.Base.{ℕ, ◌≤◌, ◌≡◌, List, ◌++◌, length, drop, arith, length-append, length-drop}
use cs.Base.Int.{ℤ}
use cs.Messages.CustomerRequest
use cs.Messages.CustomerRequest.{CustomerRequest}
use cs.Messages.LaptopInfo
use cs.Messages.LaptopInfo.{LaptopInfo}
use cs.Socket.{Conn, returns, ◌>>=◌}
use cs.Socket.Delivery.{joined, IsDelivery, Takes, send-all}
use cs.Stubs.{receive_message, overwrite}
use cs.Stubs.Client
use cs.Stubs.Client.{ask, answer_or}
use cs.Stubs.Exchange.{fill-store, send_buffer-overwrite, receive_message-Reads}
use cs.Stubs.Server
use cs.Wire.{Host, IsHost, Writer, Reader, store}
use cs.Wire.Laws.{Reads}

-- A request goes out whole and the answer comes in any pieces.
ask-answered :
    {A : Type 0} (w : Writer) (bytes : List ℕ) (size : ℕ) (a₀ a : A) (r : Reader A) (reply : List ℕ)
    (reply_size : ℕ) (buffer : List ℕ) (answers more : List ℤ) (chunks later : List (List ℕ))
    (c : Conn)
    → w ≡ store bytes
    → length bytes ≡ size
    → size ≤ length buffer
    → Reads r reply a
    → length reply ≡ reply_size
    → reply_size ≤ length buffer
    → c.sends ≡ answers ++ more
    → Takes answers size
    → c.arrivals ≡ chunks ++ later
    → IsDelivery chunks
    → joined chunks ≡ reply
    → ask w size a₀ r reply_size buffer c
      ≡ returns a (record c { sends = more; arrivals = later; sent = c.sent ++ bytes })
unfolding ask ◌>>=◌ receive_message
ask-answered w bytes size a₀ a r reply reply_size buffer answers more chunks later c e f fits reads
      g room es t ea del j =
    rw
      (
        e,
        ← f,
        fill-store bytes buffer c (rw f fits),
        send_buffer-overwrite bytes buffer c,
        send-all answers more bytes c es (rw f t),
      )
      (receive_message-Reads a₀ a r reply (overwrite bytes buffer) reply_size chunks later
        (record c { sends = more; sent = c.sent ++ bytes }) reads g
        (omega (
          arith,
          length-append bytes (drop (length bytes) buffer),
          length-drop (length bytes) buffer,
        ))
        ea del j)

-- A customer whose request goes out in full, and to whom the bytes of a laptop come back in any
-- pieces, has that laptop; a server on another machine that those request bytes reach, in any
-- pieces, has the request.
pub order_link :
    (h g : Host) (h_laws : IsHost h) (g_laws : IsHost g) (request : CustomerRequest)
    (laptop : LaptopInfo) (buffer room : List ℕ) (answers more : List ℤ)
    (chunks later : List (List ℕ)) (c : Conn)
    → CustomerRequest.IsWire request
    → LaptopInfo.IsWire laptop
    → length buffer ≡ 32
    → length room ≡ 32
    → c.sends ≡ answers ++ more
    → Takes answers 12
    → c.arrivals ≡ chunks ++ later
    → IsDelivery chunks
    → joined chunks ≡ LaptopInfo.encode laptop
    → (bytes : List ℕ) × (Client.order h buffer request c
        ≡ returns laptop (record c { sends = more; arrivals = later; sent = c.sent ++ bytes }))
      × ((pieces rest : List (List ℕ)) (d : Conn)
          → d.arrivals ≡ pieces ++ rest
          → IsDelivery pieces
          → joined pieces ≡ bytes
          → Server.receive_request g room d ≡ returns request (record d { arrivals = rest }))
unfolding Client.order Server.receive_request
order_link h g h_laws g_laws request laptop buffer room answers more chunks later c wr wl eb er es t
      ea del j =
    (
      CustomerRequest.encode request,
      ask-answered _ (CustomerRequest.encode request) 12 LaptopInfo.new laptop
          (LaptopInfo.unmarshal h) (LaptopInfo.encode laptop) 20 buffer answers more chunks later c
          (CustomerRequest.marshal-encode h h_laws request) (CustomerRequest.length-encode request)
          (omega arith) (LaptopInfo.unmarshal-Reads h h_laws laptop wl)
          (LaptopInfo.length-encode laptop) (omega arith) es t ea del j,
      λ pieces rest d ed dd jd.
          receive_message-Reads CustomerRequest.new request (CustomerRequest.unmarshal g)
            (CustomerRequest.encode request) room 12 pieces rest d
            (CustomerRequest.unmarshal-Reads g g_laws request wr)
            (CustomerRequest.length-encode request) (omega arith) ed dd jd,
    )
