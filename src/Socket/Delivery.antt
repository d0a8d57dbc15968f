-- ===== src/Socket/Delivery.antt =====
-- Socket::Send and Socket::Recv (src/Socket.cpp), for all that the kernel may answer.
use cs.Base.{
  ℕ, zero, suc, ◌-◌, ◌≤◌, ◌<◌, ◌≡◌, ◌≢◌, refl, sym, ◌∙◌, ap, subst, Bool, true, false, List, [],
  ◌∷◌, ◌++◌, length, take, drop, leb, arith, append_assoc, append-nil, take-append-drop,
  length-append, length-drop, Bool-cases, inl, inr, All,
}
use cs.Base.Int.{ℤ, pos, negsuc}
use cs.Socket.{
  Socket, Conn, Run, returns, blocked, aborted, fault, close, send_loop, send, got, recv_loop, recv,
}

-- The answers with which the kernel takes `size` bytes, some at a time.
abbrev pub Takes : List ℤ → ℕ → Type 0
Takes [] size = size ≡ 0
Takes (pos n ∷ answers) size = (0 < n) × (n ≤ size) × Takes answers (size - n)
Takes (negsuc n ∷ answers) size = ⊥

send_loop-all :
    (answers : List ℤ) (more : List ℤ) (bytes : List ℕ) (s : Socket) (arrivals : List (List ℕ))
    (sent : List ℕ)
    → Takes answers (length bytes)
    → send_loop (answers ++ more) bytes s arrivals sent
      ≡ returns true
          (record { socket = s; sends = more; arrivals = arrivals; sent = sent ++ bytes })
unfolding send_loop
send_loop-all [] more [] s arrivals sent t = rw (append-nil sent)
send_loop-all [] more (b ∷ bytes) s arrivals sent t = absurd (omega arith)
send_loop-all (negsuc n ∷ answers) more bytes s arrivals sent t = absurd t
send_loop-all (pos n ∷ answers) more [] s arrivals sent t = absurd (omega arith)
send_loop-all (pos n ∷ answers) more (b ∷ bytes) s arrivals sent t =
    let whole : take n (b ∷ bytes) ++ drop n (b ∷ bytes) ≡ b ∷ bytes =
      take-append-drop n (b ∷ bytes) in
    let left : Takes answers (length (drop n (b ∷ bytes))) = rw (length-drop n (b ∷ bytes)) (t.2) in
    ground (
      arith,
      send_loop-all answers more (drop n (b ∷ bytes)) s arrivals (sent ++ take n (b ∷ bytes)) left,
      append_assoc sent (take n (b ∷ bytes)) (drop n (b ∷ bytes)),
      whole,
    )

-- If the kernel takes everything, in pieces of any size, Send answers 1 with every byte sent.
pub send-all :
    (answers more : List ℤ) (bytes : List ℕ) (c : Conn)
    → c.sends ≡ answers ++ more
    → Takes answers (length bytes)
    → send bytes c ≡ returns true (record c { sends = more; sent = c.sent ++ bytes })
unfolding send
send-all answers more bytes c e t =
    rw e (send_loop-all answers more bytes c.socket c.arrivals c.sent t)

-- What a run of Send says about its end.
abbrev pub Sends : List ℕ → Conn → Run Bool → Type 0
Sends bytes c (returns true d) =
    (d.sent ≡ c.sent ++ bytes) × (d.socket ≡ c.socket) × (d.arrivals ≡ c.arrivals)
Sends bytes c (returns false d) =
    ((part : List ℕ) × (rest : List ℕ) × (part ++ rest ≡ bytes) × (d.sent ≡ c.sent ++ part))
    × (d.socket ≡ close c.socket)
    × (d.arrivals ≡ c.arrivals)
Sends bytes c _ = Unit

Sends-later :
    (front rest : List ℕ) (c : Conn) (r : Run Bool)
    → Sends rest (record c { sent = c.sent ++ front }) r
    → Sends (front ++ rest) c r
Sends-later front rest c (returns true d) h = (h.0 ∙ append_assoc c.sent front rest, h.1, h.2)
Sends-later front rest c (returns false d) h =
    let (part, later, e, f) = h.0 in
    (
      (
        front ++ part,
        later,
        append_assoc front part later ∙ ap (◌++◌ front) e,
        f ∙ append_assoc c.sent front part,
      ),
      h.1,
      h.2,
    )
Sends-later front rest c blocked h = tt
Sends-later front rest c aborted h = tt
Sends-later front rest c fault h = tt

send_loop-Sends :
    (answers : List ℤ) (bytes : List ℕ) (c : Conn)
    → Sends bytes c (send_loop answers bytes c.socket c.arrivals c.sent)
unfolding send_loop
send_loop-Sends answers [] c = (sym (append-nil c.sent), refl, refl)
send_loop-Sends [] (b ∷ bytes) c = tt
send_loop-Sends (negsuc n ∷ answers) (b ∷ bytes) c =
    (([], b ∷ bytes, refl, sym (append-nil c.sent)), refl, refl)
send_loop-Sends (pos n ∷ answers) (b ∷ bytes) c =
    let front = take n (b ∷ bytes) in
    let rest = drop n (b ∷ bytes) in
    elim (Bool-cases (leb n (length (b ∷ bytes)))) [
      | inr over ↦ rw over tt
      | inl fits ↦ rw fits (
          subst (λ l. Sends l c (send_loop answers rest c.socket c.arrivals (c.sent ++ front)))
            (take-append-drop n (b ∷ bytes))
            (Sends-later front rest c _
              (send_loop-Sends answers rest (record c { sent = c.sent ++ front }))))
    ]

-- However the kernel answers: Send returns 1 only when every byte is sent, and after a failure the
-- socket is closed and what was sent is the beginning of the bytes.
pub send-Sends : (bytes : List ℕ) (c : Conn) → Sends bytes c (send bytes c)
unfolding send
send-Sends bytes c = send_loop-Sends c.sends bytes c

unfoldable pub joined : List (List ℕ) → List ℕ
joined [] = []
joined (chunk ∷ chunks) = chunk ++ joined chunks

-- Each `recv` delivers something.
abbrev pub IsDelivery : List (List ℕ) → Type 0
IsDelivery = All (λ chunk. chunk ≢ [])

recv_loop-all :
    (chunks more : List (List ℕ)) (size : ℕ) (s : Socket) (sends : List ℤ) (sent buffer : List ℕ)
    → IsDelivery chunks
    → length (joined chunks) ≡ size
    → recv_loop (chunks ++ more) size s sends sent buffer
      ≡ returns
          (got (buffer ++ joined chunks))
          (record { socket = s; sends = sends; arrivals = more; sent = sent })
unfolding recv_loop joined
recv_loop-all [] more zero s sends sent buffer d e = rw (append-nil buffer)
recv_loop-all [] more (suc size) s sends sent buffer d e = absurd (omega arith)
recv_loop-all ([] ∷ chunks) more size s sends sent buffer d e = absurd (d.0 refl)
recv_loop-all ((b ∷ bs) ∷ chunks) more zero s sends sent buffer d e = absurd (omega arith)
recv_loop-all ((b ∷ bs) ∷ chunks) more (suc size) s sends sent buffer d e = ground (
  arith,
  recv_loop-all chunks more (suc size - length (b ∷ bs)) s sends sent (buffer ++ (b ∷ bs)) d.1,
  length-append (b ∷ bs) (joined chunks),
  append_assoc buffer (b ∷ bs) (joined chunks),
)

-- Recv returns the bytes that arrive, in order, however they are cut into pieces.
pub recv-all :
    (chunks more : List (List ℕ)) (c : Conn)
    → c.arrivals ≡ chunks ++ more
    → IsDelivery chunks
    → recv (length (joined chunks)) c ≡ returns (got (joined chunks)) (record c { arrivals = more })
unfolding recv
recv-all chunks more c e d =
    rw e (recv_loop-all chunks more (length (joined chunks)) c.socket c.sends c.sent [] d refl)
