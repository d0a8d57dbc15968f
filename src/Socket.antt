-- ===== src/Socket.antt =====
-- src/Socket.cpp: a connected socket, and the loops of Send and Recv over the system calls.
-- What `send` and `recv` answer is a script: a list of the answers still to come.
pub mod Delivery
pub mod Setup
pub mod Leaks
use cs.Base.{
  ℕ, zero, suc, ◌+◌, ◌-◌, ◌≡◌, Bool, true, false, List, [], ◌∷◌, ◌++◌, length, take, drop, ltb, leb,
  if◌then◌else◌, ◌==◌,
}
use cs.Base.Int.{ℤ, pos, negsuc}

-- `nagle` is NAGLE_ON (0) or NAGLE_OFF (1).
pub record Socket : Type 0 where
  pub fd : ℤ
  pub is_initialized : Bool
  pub nagle : ℕ

unfoldable pub new : ℤ → Socket
new junk = record { fd = junk; is_initialized = false; nagle = 0 }

unfoldable pub reset : Socket → Socket
reset s = record s { is_initialized = false; nagle = 0 }

-- shutdown(fd_), close(fd_), and the flag.
unfoldable pub close : Socket → Socket
close s = record s { is_initialized = false }

unfoldable pub is_nagle_on : Socket → Bool
is_nagle_on s = s.nagle == 0

-- `result` is what setsockopt answers.
unfoldable pub nagle_on : Socket → Bool → ℤ → ℕ × Socket
nagle_on s on_off (pos n) = (1, record s { nagle = if on_off then 0 else 1 })
nagle_on s on_off (negsuc n) = (0, record s { nagle = if on_off then 0 else 1 })

-- A connection: the socket, the answers of `send` and of `recv` that are still to come (the latter
-- with the bytes that they deliver), and the bytes that the kernel has taken so far.
pub record Conn : Type 0 where
  pub socket : Socket
  pub sends : List ℤ
  pub arrivals : List (List ℕ)
  pub sent : List ℕ

-- How a call ends: it returns, waits for an answer that does not come, fails an `assert`, or
-- touches memory that is not its own.
pub data Run (A : Type 0) : Type 0 where
  returns : A → Conn → Run A
  blocked : Run A
  aborted : Run A
  fault : Run A

abbrev pub Io : Type 0 → Type 0
Io A = Conn → Run A

abbrev pub done : {A : Type 0} → A → Io A
done a c = returns a c

abbrev pub run_on : {A B : Type 0} → Run A → (A → Io B) → Run B
run_on (returns a c) f = f a c
run_on blocked f = blocked
run_on aborted f = aborted
run_on fault f = fault

infixl 5 ◌>>=◌
unfoldable pub ◌>>=◌ : {A B : Type 0} → Io A → (A → Io B) → Io B
◌>>=◌ m f c = run_on (m c) f

-- The loop of Send: `bytes` is what is left to send.
unfoldable pub send_loop : List ℤ → List ℕ → Socket → List (List ℕ) → List ℕ → Run Bool
unfolding close
send_loop answers [] s arrivals sent =
    returns true (record { socket = s; sends = answers; arrivals = arrivals; sent = sent })
send_loop [] (b ∷ bytes) s arrivals sent = blocked
send_loop (negsuc n ∷ answers) (b ∷ bytes) s arrivals sent =
    returns false (record { socket = close s; sends = answers; arrivals = arrivals; sent = sent })
send_loop (pos n ∷ answers) (b ∷ bytes) s arrivals sent =
    let rest = send_loop answers (drop n (b ∷ bytes)) s arrivals (sent ++ take n (b ∷ bytes)) in
    if leb n (length (b ∷ bytes)) then rest else aborted

-- `true` for the answer 1 of Send.
unfoldable pub send : List ℕ → Io Bool
unfolding send_loop
send bytes c = send_loop c.sends bytes c.socket c.arrivals c.sent

-- What Recv leaves in the buffer: all the bytes, if it answers 1, or those before a failure.
pub data Received : Type 0 where
  got : List ℕ → Received
  lost : List ℕ → Received

-- The loop of Recv: `size` bytes are still wanted, and `buffer` holds those that came. An answer
-- with no byte stands for a `recv` that returns 0 or less.
unfoldable pub recv_loop : List (List ℕ) → ℕ → Socket → List ℤ → List ℕ → List ℕ → Run Received
unfolding close
recv_loop arrivals zero s sends sent buffer =
    returns (got buffer) (record { socket = s; sends = sends; arrivals = arrivals; sent = sent })
recv_loop [] (suc size) s sends sent buffer = blocked
recv_loop ([] ∷ arrivals) (suc size) s sends sent buffer =
    returns (lost buffer)
      (record { socket = close s; sends = sends; arrivals = arrivals; sent = sent })
recv_loop ((b ∷ bs) ∷ arrivals) (suc size) s sends sent buffer =
    let rest = recv_loop arrivals (suc size - length (b ∷ bs)) s sends sent (buffer ++ (b ∷ bs)) in
    if leb (length (b ∷ bs)) (suc size) then rest else aborted

unfoldable pub recv : ℕ → Io Received
unfolding recv_loop
recv size c = recv_loop c.arrivals size c.socket c.sends c.sent []
