-- ===== src/Socket/Setup.antt =====
-- src/ServerSocket.cpp and src/ClientSocket.cpp: sockets that are made, bound, accepted and
-- connected. What the system calls answer is an argument.
use cs.Base.{
  ℕ, ◌/◌, ◌%◌, Bool, true, false, Option, none, some, List, [], ◌∷◌, ◌++◌, if◌then◌else◌, ◌==◌,
}
use cs.Base.Int.{ℤ, pos, ltb_ℤ}
use cs.Base.Word.{to_u32}
use cs.Socket
use cs.Socket.{Socket, new, reset, close, is_nagle_on, nagle_on}

-- sockaddr_in: s_addr, and sin_port by its two bytes in network order.
pub record Address : Type 0 where
  pub host : ℕ
  pub port : List ℕ

-- htons(port), of the low 16 bits of the `int`
unfoldable pub port_bytes : ℤ → List ℕ
unfolding to_u32
port_bytes port = (to_u32 port / 256 % 256) ∷ (to_u32 port % 256) ∷ []

-- The system calls, with what they are given, and for the first one what it answers.
pub data Call : Type 0 where
  made : ℤ → Call
  bound : ℤ → Address → Call
  listening : ℤ → ℕ → Call
  connecting : ℤ → Address → Call
  closing : ℤ → Call

-- ServerSocket::Init; INADDR_ANY is 0.
unfoldable pub init_server : ℤ → ℤ → ℤ → Socket → Bool × Socket × List Call
unfolding port_bytes
init_server fd bind port s =
    let address : Address = record { host = 0; port = port_bytes port } in
    let opened : Socket = record s { fd = fd } in
    if s.is_initialized
    then (true, s, [])
    else if ltb_ℤ fd (pos 0)
    then (false, opened, made fd ∷ [])
    else if ltb_ℤ bind (pos 0)
    then (false, opened, made fd ∷ bound fd address ∷ [])
    else (
      true,
      record opened { is_initialized = true },
      made fd ∷ bound fd address ∷ listening fd 8 ∷ [],
    )

-- The constructor of a socket that was accepted: `option` is what setsockopt answers.
unfoldable pub accepted_socket : ℤ → Bool → ℤ → ℤ → Socket
unfolding Socket.new nagle_on
accepted_socket fd nagle option junk =
    (nagle_on (record (Socket.new junk) { fd = fd; is_initialized = true }) nagle option).1

-- ServerSocket::Accept; `none` for nullptr.
unfoldable pub accept : ℤ → ℤ → ℤ → Socket → Option Socket
unfolding accepted_socket is_nagle_on
accept fd option junk s =
    if ltb_ℤ fd (pos 0) then none else some (accepted_socket fd (is_nagle_on s) option junk)

-- ~Socket
unfoldable pub destroy : Socket → Socket × List Call
unfolding close
destroy s = if s.is_initialized then (close s, closing s.fd ∷ []) else (s, [])

-- inet_addr is a function of the system.
module _ (inet_addr : List ℕ → ℕ) where
  -- ClientSocket::Init
  unfoldable pub init_client : ℤ → ℤ → List ℕ → ℤ → Socket → ℕ × Socket × List Call
  unfolding port_bytes
  init_client fd connect ip port s =
      let address : Address = record { host = inet_addr ip; port = port_bytes port } in
      let opened : Socket = record s { fd = fd } in
      if s.is_initialized
      then (0, s, [])
      else if ltb_ℤ fd (pos 0)
      then (0, opened, made fd ∷ [])
      else if ltb_ℤ connect (pos 0)
      then (0, opened, made fd ∷ connecting fd address ∷ [])
      else (1, record opened { is_initialized = true }, made fd ∷ connecting fd address ∷ [])

  -- ClientStub::Reconnect
  unfoldable pub reconnect : ℤ → ℤ → List ℕ → ℤ → Socket → ℕ × Socket × List Call
  unfolding init_client reset
  reconnect fd connect ip port s = init_client fd connect ip port (reset s)

  -- The reconnect loop of src/ClientThread.cpp: for one server after the other, a new stub is assigned
  -- over the old one, whose destructor does not run, and connected. The calls up to the first success,
  -- and the socket.
  unfoldable pub try_servers : ℤ → List (ℤ × ℤ × List ℕ × ℤ) → Option Socket × List Call
  unfolding init_client Socket.new
  try_servers junk [] = (none, [])
  try_servers junk ((fd, connect, ip, port) ∷ servers) =
      let (result, s, calls) = init_client fd connect ip port (Socket.new junk) in
      let (found, later) = try_servers junk servers in
      if result == 0 then (found, calls ++ later) else (some s, calls)
