-- ===== src/Stubs.antt =====
-- What the stubs of src/ServerStub.cpp and src/ClientStub.cpp share: a buffer on the stack, filled
-- by Marshal and sent, or received and read by Unmarshal.
pub mod Server
pub mod Client
pub mod Exchange
pub mod Links
pub mod Orders
pub mod Configs
use cs.Base.{
  ◌%◌, ◌^◌, ◌<◌, ◌≡◌, arith, ℕ, Bool, true, false, Option, none, some, List, [], ◌++◌, length, take,
  drop, leb, if◌then◌else◌,
}
use cs.Base.Int.{pos_part}
use cs.Base.Word.{of_u32, u32_mod}
use cs.Socket.{
  Conn, Run, returns, blocked, aborted, fault, Io, done, ◌>>=◌, send, Received, got, lost, recv,
}
use cs.Wire.{Out, Writer, Reader}

abbrev pub or_fault : {A : Type 0} → Option A → Io A
or_fault none c = fault
or_fault (some a) c = returns a c

abbrev pub overwrite : List ℕ → List ℕ → List ℕ
overwrite bytes buffer = bytes ++ drop (length bytes) buffer

abbrev pub filled : List ℕ → Option Out → Option (List ℕ)
filled buffer none = none
filled buffer (some o) = some (overwrite o.written buffer)

-- x.Marshal(buffer): `buffer` is what the memory held before, as long as the array is.
unfoldable pub fill : Writer → List ℕ → Io (List ℕ)
fill w buffer = or_fault (filled buffer (w (record { written = []; room = length buffer })))

-- socket.Send(buffer, size, 0)
unfoldable pub send_buffer : ℕ → List ℕ → Io Bool
send_buffer size buffer c = if leb size (length buffer) then send (take size buffer) c else fault

abbrev pub received : List ℕ → Received → Option (List ℕ)
received buffer (got bytes) = some (overwrite bytes buffer)
received buffer (lost bytes) = none

-- socket.Recv(buffer, size, 0): the buffer afterwards, if Recv answers 1.
unfoldable pub recv_buffer : ℕ → List ℕ → Io (Option (List ℕ))
recv_buffer size buffer c =
    let answer : Run (Option (List ℕ)) = (recv size >>= λ r. done (received buffer r)) c in
    if leb size (length buffer) then answer else fault

-- The buffer afterwards, whatever Recv answers.
abbrev pub arrived : List ℕ → Received → List ℕ
arrived buffer (got bytes) = overwrite bytes buffer
arrived buffer (lost bytes) = overwrite bytes buffer

unfoldable pub recv_into : ℕ → List ℕ → Io (List ℕ)
recv_into size buffer c =
    let answer : Run (List ℕ) = (recv size >>= λ r. done (arrived buffer r)) c in
    if leb size (length buffer) then answer else fault

-- A size_t or a uint32_t that is given as the `int` size of Send or Recv: how many bytes their loops
-- handle, which is none for a negative `int`.
unfoldable pub int_size : ℕ → ℕ
unfolding of_u32
int_size n = pos_part (of_u32 (n % u32_mod))

pub int_size-small : (n : ℕ) → n < 2 ^ 31 → int_size n ≡ n
unfolding int_size
int_size-small n h = ground arith

abbrev pub first_of_pair : {A : Type 0} → Option (A × List ℕ) → Option A
first_of_pair none = none
first_of_pair (some (a, rest)) = some a

-- x.Unmarshal(buffer)
unfoldable pub read : {A : Type 0} → Reader A → List ℕ → Io A
read r buffer = or_fault (first_of_pair (r buffer))

-- if (Recv(…)) x.Unmarshal(buffer); the object keeps its value otherwise.
abbrev pub read_or : {A : Type 0} → A → Reader A → Option (List ℕ) → Io A
read_or a r none = done a
read_or a r (some buffer) = read r buffer

-- Marshal, then Send.
unfoldable pub send_message : Writer → ℕ → List ℕ → Io Bool
unfolding fill send_buffer
send_message w size buffer = fill w buffer >>= send_buffer size

-- Recv, then Unmarshal.
unfoldable pub receive_message : {A : Type 0} → A → Reader A → ℕ → List ℕ → Io A
unfolding recv_buffer read
receive_message a r size buffer = recv_buffer size buffer >>= read_or a r
