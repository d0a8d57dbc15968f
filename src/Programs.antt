-- ===== src/Programs.antt =====
-- What main does with its arguments in src/ServerMain.cpp and src/ClientMain.cpp.
pub mod Arguments
pub mod Serving
pub mod Engineers
use cs.Base.{
  ℕ, zero, suc, ◌+◌, ◌*◌, ◌%◌, ◌^◌, ◌≡◌, Bool, true, false, Option, none, some, List, [], ◌∷◌,
  length, get_elem?, ltb, if◌then◌else◌, ◌==◌,
}
use cs.Base.Int.{ℤ, pos, minus_one, pos_part, ltb_ℤ, eqb_ℤ}
use cs.Base.Word.{to_u32, of_u32, u32_mod}
use cs.Customer.{Shop, Visit, thread_body}
use cs.Engineer.{Factory, add_acceptor}
use cs.Engineer.Servers.{add_acceptors}
use cs.Messages.ServerConfig
use cs.Scout.{Scout}
use cs.Socket
use cs.Socket.{Socket}
use cs.Socket.Setup.{init_server, accept}
use cs.Utilities.{skip_spaces, read_digits, negate, minus}

abbrev in_range : ℕ → (ℕ → ℤ) → ℕ × List ℕ → Option ℤ
in_range bound sign (n, rest) = if ltb n bound then some (sign n) else none

unfoldable pub atoi_signed : List ℕ → Option ℤ
unfolding read_digits
atoi_signed [] = some (pos 0)
atoi_signed (c ∷ cs) =
    if c == minus
    then in_range (2 ^ 31 + 1) negate (read_digits 0 cs)
    else if c == b'+'
    then in_range (2 ^ 31) pos (read_digits 0 cs)
    else in_range (2 ^ 31) pos (read_digits 0 (c ∷ cs))

-- atoi of the standard library: 0 where there is no number, and `none` where the value does not fit
-- an `int`, which is undefined.
unfoldable pub atoi : List ℕ → Option ℤ
unfolding skip_spaces atoi_signed
atoi text = atoi_signed (skip_spaces text)

-- What comes of an access to `argv`: a number may not fit, and the index may lie behind the end.
pub data Access (A : Type 0) : Type 0 where
  fine : A → Access A
  overflow : Access A
  past_end : Access A

infixl 5 ◌>>=◌
abbrev pub ◌>>=◌ : {A B : Type 0} → Access A → (A → Access B) → Access B
fine a >>= f = f a
overflow >>= f = overflow
past_end >>= f = past_end

abbrev pub argument_or : Option (List ℕ) → Access (List ℕ)
argument_or none = past_end
argument_or (some text) = fine text

-- argv[k]
unfoldable pub argument : ℕ → List (List ℕ) → Access (List ℕ)
argument k argv = argument_or (get_elem? argv k)

abbrev pub number_or : Option ℤ → Access ℤ
number_or none = overflow
number_or (some n) = fine n

-- atoi(argv[k])
unfoldable pub number : ℕ → List (List ℕ) → Access ℤ
unfolding argument atoi
number k argv = argument k argv >>= λ text. number_or (atoi text)

-- The loop over the peers, which stand from argv[k] on.
unfoldable pub peers : ℕ → ℕ → List (List ℕ) → Access (List (ℤ × List ℕ × ℤ))
unfolding argument number
peers zero k argv = fine []
peers (suc n) k argv = do
  id ← number k argv
  ip ← argument (k + 1) argv
  port ← number (k + 2) argv
  rest ← peers n (k + 3) argv
  fine ((id, ip, port) ∷ rest)

-- The LaptopFactory of main: `junk` is what the memory of its other integers held.
unfoldable pub new_factory : ℤ → Factory
unfolding ServerConfig.new
new_factory junk = record {
  scout = record {
    factory_id = junk;
    acceptors = [];
    acceptor_count = 0;
    acceptor_stub_init = false;
    learner_stub_init = false;
    acceptor_stubs = [];
    learner_stubs = [];
    proposal_number = pos 0;
    slot_in = pos 1;
    smr_log = [];
    last_index = junk;
    customer_record = [];
  };
  committed_index = junk;
  server_config = ServerConfig.new;
}

-- "127.0.0.1"
abbrev pub localhost : List ℕ
localhost = b'1' ∷ b'2' ∷ b'7' ∷ b'.' ∷ b'0' ∷ b'.' ∷ b'0' ∷ b'.' ∷ b'1' ∷ []

-- How main of the server goes on: it returns after the usage, or after the socket cannot be set up,
-- or it serves connections as server `id`.
pub data Server : Type 0 where
  usage : Server
  no_socket : Socket → Server
  serving : ℤ → Socket → Factory → Server

-- 4 + num_peers * 3, with wrap-around.
unfoldable pub wanted : ℤ → ℤ
unfolding to_u32 of_u32
wanted num_peers = of_u32 ((4 + to_u32 num_peers * 3) % u32_mod)

abbrev pub serve_with : ℤ → ℤ → List (List ℕ) → ℤ → ℤ → Bool × Socket → Access Server
serve_with junk num_peers argv id port (false, s) = fine (no_socket s)
serve_with junk num_peers argv id port (true, s) = peers (pos_part num_peers) 4 argv >>= λ servers.
    fine (serving id s (add_acceptors ((id, localhost, port) ∷ servers) (new_factory junk)))

-- The part of main behind the test of argc; `fd` and `bind` are what the system calls of Init
-- answer.
unfoldable pub server_start : ℤ → ℤ → ℤ → List (List ℕ) → Access Server
unfolding number wanted peers new_factory init_server Socket.new add_acceptors
server_start junk fd bind argv = do
  port ← number 1 argv
  id ← number 2 argv
  num_peers ← number 3 argv
  let (up, s, calls) = init_server fd bind port (Socket.new junk)
  let served = serve_with junk num_peers argv id port (up, s)
  if ltb_ℤ (pos (length argv)) (wanted num_peers) then fine usage else served

-- main of the server up to the loop that accepts connections.
unfoldable pub server_main : ℤ → ℤ → ℤ → List (List ℕ) → Access Server
unfolding server_start
server_main junk fd bind argv =
    let start = server_start junk fd bind argv in if ltb (length argv) 4 then fine usage else start

abbrev pub with_engineer : ℕ → Option Socket → List (ℕ × Socket) → List (ℕ × Socket)
with_engineer count none later = []
with_engineer count (some s) later = (count, s) ∷ later

-- The loop of the server's main over what accept and setsockopt answer: the engineers that it starts,
-- each with its number and its socket. Where no more answers come, accept waits.
unfoldable pub accept_loop : ℤ → Socket → List (ℤ × ℤ) → ℕ → List (ℕ × Socket)
unfolding accept
accept_loop junk s [] engineer_cnt = []
accept_loop junk s ((fd, option) ∷ answers) engineer_cnt =
    with_engineer engineer_cnt (accept fd option junk s)
      (accept_loop junk s answers (engineer_cnt + 1))

-- A thread of the client's main: the arguments of ThreadBody.
pub record Job : Type 0 where
  pub ip : List ℕ
  pub port : ℤ
  pub customer_id : ℤ
  pub num_orders : ℤ
  pub request_type : ℤ

-- The customers from number `i` on.
unfoldable pub jobs : ℕ → ℕ → List ℕ → ℤ → ℤ → ℤ → List Job
jobs zero i ip port num_orders request_type = []
jobs (suc n) i ip port num_orders request_type =
    record {
      ip = ip;
      port = port;
      customer_id = pos i;
      num_orders = num_orders;
      request_type = request_type;
    }
    ∷ jobs n (suc i) ip port num_orders request_type

unfoldable pub client_start : List (List ℕ) → Access (Option (List Job))
unfolding argument number jobs
client_start argv = do
  ip ← argument 1 argv
  port ← number 2 argv
  num_customers ← number 3 argv
  num_orders ← number 4 argv
  request_type ← number 5 argv
  let customers = if eqb_ℤ request_type (pos 3) then pos 1 else num_customers
  fine (some (jobs (pos_part customers) 0 ip port num_orders request_type))

-- main of the client up to the threads that it starts; `none` after the usage. Type 3 has one
-- customer.
unfoldable pub client_main : List (List ℕ) → Access (Option (List Job))
unfolding client_start
client_main argv = let start = client_start argv in if ltb (length argv) 6 then fine none else start
