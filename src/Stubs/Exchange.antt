-- ===== src/Stubs/Exchange.antt =====
-- What one side sends the other receives, through any cut of the stream into pieces.
use cs.Base.{
  ℕ, suc, ◌≤◌, ◌≡◌, refl, some, List, [], ◌∷◌, ◌++◌, length, drop, leb, if◌then◌else◌, arith,
  take-length_append, le→leb, Bool-cases, inl, inr, length-append,
}
use cs.Socket.{Conn, returns, fault, ◌>>=◌, send, recv, recv_loop, close}
use cs.Socket.Delivery.{joined, IsDelivery, recv-all}
use cs.Stubs.{
  recv_into, fill, send_buffer, recv_buffer, read, send_message, receive_message, overwrite,
}
use cs.Wire.{Writer, store, Reader}
use cs.Wire.Laws.{Reads}

pub send_buffer-overwrite :
    (bytes buffer : List ℕ) (c : Conn)
    → send_buffer (length bytes) (overwrite bytes buffer) c ≡ send bytes c
unfolding send_buffer
send_buffer-overwrite bytes buffer c = rw (
  le→leb (length bytes) (length (overwrite bytes buffer))
      (omega (arith, length-append bytes (drop (length bytes) buffer))),
  take-length_append bytes (drop (length bytes) buffer),
)

pub fill-store :
    (bytes buffer : List ℕ) (c : Conn)
    → length bytes ≤ length buffer
    → fill (store bytes) buffer c ≡ returns (overwrite bytes buffer) c
unfolding fill store
fill-store bytes buffer c fits = rw (le→leb _ _ fits)

-- Marshalled text goes out exactly if it fits the array; otherwise Marshal writes past its end.
pub send_message-store :
    (w : Writer) (bytes buffer : List ℕ) (size : ℕ) (c : Conn)
    → w ≡ store bytes
    → length bytes ≡ size
    → send_message w size buffer c ≡ (if leb size (length buffer) then send bytes c else fault)
unfolding send_message ◌>>=◌ store
send_message-store w bytes buffer size c e f =
    rw (e, ← f)
      (elim (Bool-cases (leb (length bytes) (length buffer))) [
        | inl fits ↦ rw fits (send_buffer-overwrite bytes buffer c)
        | inr over ↦ rw over refl
      ])

pub recv_buffer-joined :
    (chunks more : List (List ℕ)) (buffer : List ℕ) (c : Conn)
    → c.arrivals ≡ chunks ++ more
    → IsDelivery chunks
    → length (joined chunks) ≤ length buffer
    → recv_buffer (length (joined chunks)) buffer c
      ≡ returns (some (overwrite (joined chunks) buffer)) (record c { arrivals = more })
unfolding recv_buffer ◌>>=◌
recv_buffer-joined chunks more buffer c e d fits = rw (le→leb _ _ fits, recv-all chunks more c e d)

-- The same, for bytes that are known.
pub recv_buffer-bytes :
    (bytes : List ℕ) (size : ℕ) (chunks more : List (List ℕ)) (buffer : List ℕ) (c : Conn)
    → length bytes ≡ size
    → size ≤ length buffer
    → c.arrivals ≡ chunks ++ more
    → IsDelivery chunks
    → joined chunks ≡ bytes
    → recv_buffer size buffer c
      ≡ returns (some (overwrite bytes buffer)) (record c { arrivals = more })
recv_buffer-bytes bytes size chunks more buffer c e fits arr d j =
    rw (← e, ← j) (recv_buffer-joined chunks more buffer c arr d (rw (j, e) fits))

-- What Recv leaves, where all the bytes arrive.
pub recv_into-bytes :
    (bytes : List ℕ) (size : ℕ) (chunks more : List (List ℕ)) (buffer : List ℕ) (c : Conn)
    → length bytes ≡ size
    → size ≤ length buffer
    → c.arrivals ≡ chunks ++ more
    → IsDelivery chunks
    → joined chunks ≡ bytes
    → recv_into size buffer c ≡ returns (overwrite bytes buffer) (record c { arrivals = more })
unfolding recv_into ◌>>=◌
recv_into-bytes bytes size chunks more buffer c e fits arr d j =
    let room : length (joined chunks) ≤ length buffer = rw (j, e) fits in
    rw (← e, ← j, le→leb _ _ room, recv-all chunks more c arr d) refl

pub read-Reads :
    {A : Type 0} (a : A) (r : Reader A) (bytes buffer : List ℕ) (c : Conn)
    → Reads r bytes a
    → read r (overwrite bytes buffer) c ≡ returns a c
unfolding read
read-Reads a r bytes buffer c reads = rw (reads (drop (length bytes) buffer))

-- The bytes of `a` arrive in any pieces: the receiver has `a`, and the rest of the stream waits.
pub receive_message-Reads :
    {A : Type 0} (a₀ a : A) (r : Reader A) (bytes buffer : List ℕ) (size : ℕ)
    (chunks more : List (List ℕ)) (c : Conn)
    → Reads r bytes a
    → length bytes ≡ size
    → size ≤ length buffer
    → c.arrivals ≡ chunks ++ more
    → IsDelivery chunks
    → joined chunks ≡ bytes
    → receive_message a₀ r size buffer c ≡ returns a (record c { arrivals = more })
unfolding receive_message ◌>>=◌
receive_message-Reads a₀ a r bytes buffer size chunks more c reads e fits arr d j =
    rw (← e, ← j, recv_buffer-joined chunks more buffer c arr d (rw (j, e) fits))
      (rw j (rw (reads (drop (length bytes) buffer))))

-- A connection that is lost before the first byte: the receiver keeps its default, and closes.
pub receive_message-lost :
    {A : Type 0} (a₀ : A) (r : Reader A) (size : ℕ) (buffer : List ℕ) (more : List (List ℕ))
    (c : Conn)
    → suc size ≤ length buffer
    → c.arrivals ≡ [] ∷ more
    → receive_message a₀ r (suc size) buffer c
      ≡ returns a₀ (record c { arrivals = more; socket = close c.socket })
unfolding receive_message ◌>>=◌ recv_buffer recv recv_loop
receive_message-lost a₀ r size buffer more c fits arr = rw (le→leb _ _ fits, arr)
