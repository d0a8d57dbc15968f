-- ===== src/Programs/Serving.antt =====
-- How main of src/ServerMain.cpp comes to serve.
use cs.Base.{
  ℕ, ◌+◌, ◌*◌, ◌^◌, ◌<◌, ◌≤◌, ◌≡◌, ◌≢◌, refl, sym, ap, ◌∙◌, Bool, true, false, List, [], ◌∷◌,
  length, get_elem?, ltb, All, arith, Bool-cases, inl, inr, ◌⊎◌,
}
use cs.Base.Int.{ℤ, pos, negsuc, pos_part, ltb_ℤ, ◌<ℤ◌, minus_one}
use cs.Base.Word.{IsInt, to_u32, of_u32}
use cs.Engineer.{Factory}
use cs.Engineer.Servers.{
  add_acceptors, IsConsistent, AllNew-cases, Repeats, info_of-none, add_acceptors-IsConsistent,
}
use cs.Map.{find}
use cs.Messages.ServerConfig
use cs.Programs.{
  fine, past_end, number, peers, serving, wanted, localhost, serve_with, new_factory, server_start,
  server_main,
}
use cs.Programs.Arguments.{
  StandsAt, StandsAt-first, StandsAt-next, argument-StandsAt, number-StandsAt, IsWithin,
  bind-IsWithin, number-IsWithin, peers-IsWithin,
}
use cs.Socket
use cs.Socket.{Socket}
use cs.Socket.Setup.{init_server}
use cs.Utilities.{put_integer}

abbrev pub Peer : Type 0
Peer = ℤ × List ℕ × ℤ

-- The arguments for peers, as the usage text has them.
abbrev pub peer_texts : List Peer → List (List ℕ)
peer_texts [] = []
peer_texts ((id, ip, port) ∷ rest) = put_integer id ∷ ip ∷ put_integer port ∷ peer_texts rest

abbrev pub argv_of : List ℕ → ℤ → ℤ → List Peer → List (List ℕ)
argv_of name port id rest =
    name ∷ put_integer port ∷ put_integer id ∷ put_integer (pos (length rest)) ∷ peer_texts rest

abbrev pub AllInts : List Peer → Type 0
AllInts = All (λ p. IsInt p.0 × IsInt p.2)

length-peer_texts : (rest : List Peer) → length (peer_texts rest) ≡ 3 * length rest
length-peer_texts [] = omega arith
length-peer_texts ((id, ip, port) ∷ rest) = omega (arith, length-peer_texts rest)

peers-StandsAt :
    (rest : List Peer) (k : ℕ) (argv : List (List ℕ))
    → AllInts rest
    → StandsAt k (peer_texts rest) argv
    → peers (length rest) k argv ≡ fine rest
unfolding peers
peers-StandsAt [] k argv ints h = refl
peers-StandsAt ((id, ip, port) ∷ rest) k argv ((i, j), ints) h =
    let h₁ = StandsAt-next k (put_integer id) (ip ∷ put_integer port ∷ peer_texts rest) argv h in
    let h₂ = StandsAt-next (k + 1) ip (put_integer port ∷ peer_texts rest) argv h₁ in
    let second : StandsAt (k + 2) (put_integer port ∷ peer_texts rest) argv =
      λ n. ap (get_elem? argv) (omega arith) ∙ h₂ n in
    let third : StandsAt (k + 3) (peer_texts rest) argv = λ n.
      ap (get_elem? argv) (omega arith)
      ∙ StandsAt-next (k + 2) (put_integer port) (peer_texts rest) argv second n in
    rw
      (
        number-StandsAt k id (ip ∷ put_integer port ∷ peer_texts rest) argv i h,
        argument-StandsAt (k + 1) ip (put_integer port ∷ peer_texts rest) argv h₁,
        number-StandsAt (k + 2) port (peer_texts rest) argv j second,
        peers-StandsAt rest (k + 3) argv ints third,
      )
      refl

wanted-small : (n : ℕ) → 3 * n + 4 < 2 ^ 31 → wanted (pos n) ≡ pos (4 + n * 3)
unfolding wanted to_u32 of_u32
wanted-small n h = ground arith

new_factory-IsConsistent : (junk : ℤ) → IsConsistent (new_factory junk)
unfolding new_factory ServerConfig.new find
new_factory-IsConsistent junk = record { sorted = tt; same = λ id. sym info_of-none; count = refl }

-- The state of a server once it has its peers.
abbrev pub configured : ℤ → ℤ → ℤ → List Peer → Factory
configured junk id port rest = add_acceptors ((id, localhost, port) ∷ rest) (new_factory junk)

configured_cases :
    (junk id port : ℤ) (rest : List Peer)
    → IsConsistent (configured junk id port rest) ⊎ Repeats [] ((id, localhost, port) ∷ rest)
unfolding new_factory find
configured_cases junk id port rest =
    let servers = (id, localhost, port) ∷ rest in
    elim (AllNew-cases [] servers (new_factory junk) (λ k. inl refl)) [
      | inl fresh ↦ inl (
          add_acceptors-IsConsistent servers (new_factory junk) (new_factory-IsConsistent junk)
            fresh)
      | inr again ↦ inr again
    ]

server_start-serving :
    (junk fd bind port id : ℤ) (argv : List (List ℕ)) (rest : List Peer)
    → minus_one <ℤ fd
    → minus_one <ℤ bind
    → number 1 argv ≡ fine port
    → number 2 argv ≡ fine id
    → number 3 argv ≡ fine (pos (length rest))
    → peers (length rest) 4 argv ≡ fine rest
    → ltb_ℤ (pos (length argv)) (wanted (pos (length rest))) ≡ false
    → (s : Socket) × (server_start junk fd bind argv
        ≡ fine (serving id s (configured junk id port rest)))
unfolding server_start init_server Socket.new
server_start-serving junk fd bind port id argv rest made bound a b c d e =
    let opened : ltb_ℤ fd (pos 0) ≡ false = ground arith in
    let fixed : ltb_ℤ bind (pos 0) ≡ false = ground arith in
    (record { fd = fd; is_initialized = true; nagle = 0 }, rw (a, b, c, e, opened, fixed, d) refl)

-- From the arguments of the usage text, printed for a server and its peers, and with a socket that
-- can be made and bound, main serves with the server itself and all its peers registered; and the map
-- for the customers and that of the scout tell of the same servers, or an id comes twice. (The number
-- of arguments, the ids and the ports are ints.)
pub server_main-serving :
    (junk fd bind port id : ℤ) (name : List ℕ) (rest : List Peer)
    → minus_one <ℤ fd
    → minus_one <ℤ bind
    → IsInt port
    → IsInt id
    → AllInts rest
    → 3 * length rest + 4 < 2 ^ 31
    → (s : Socket) × (server_main junk fd bind (argv_of name port id rest)
        ≡ fine (serving id s (configured junk id port rest)))
      × (IsConsistent (configured junk id port rest) ⊎ Repeats [] ((id, localhost, port) ∷ rest))
unfolding server_main
server_main-serving junk fd bind port id name rest made bound i j ints small =
    let argv = argv_of name port id rest in
    let n = pos (length rest) in
    let h₁ =
      StandsAt-first name (put_integer port ∷ put_integer id ∷ put_integer n ∷ peer_texts rest) in
    let h₂ =
      StandsAt-next 1 (put_integer port) (put_integer id ∷ put_integer n ∷ peer_texts rest) argv
        h₁ in
    let h₃ = StandsAt-next 2 (put_integer id) (put_integer n ∷ peer_texts rest) argv h₂ in
    let h₄ = StandsAt-next 3 (put_integer n) (peer_texts rest) argv h₃ in
    let enough : ltb_ℤ (pos (length argv)) (wanted n) ≡ false =
      rw (wanted-small (length rest) small) (ground (arith, length-peer_texts rest)) in
    let four : ltb (length argv) 4 ≡ false = ground arith in
    let (s, e) =
      server_start-serving junk fd bind port id argv rest made bound
        (number-StandsAt 1 port (put_integer id ∷ put_integer n ∷ peer_texts rest) argv i h₁)
        (number-StandsAt 2 id (put_integer n ∷ peer_texts rest) argv j h₂)
        (number-StandsAt 3 n (peer_texts rest) argv (omega arith, omega arith) h₃)
        (peers-StandsAt rest 4 argv ints h₄) enough in
    (s, rw four e, configured_cases junk id port rest)

served-IsWithin :
    (junk : ℤ) (n : ℤ) (argv : List (List ℕ)) (id port : ℤ) (up : Bool) (s : Socket)
    → 3 * pos_part n + 4 < 2 ^ 31
    → 4 + pos_part n * 3 ≤ length argv
    → IsWithin (serve_with junk n argv id port (up, s))
served-IsWithin junk n argv id port false s small enough = λ p. cc
served-IsWithin junk n argv id port true s small enough =
    bind-IsWithin (peers (pos_part n) 4 argv) _ (peers-IsWithin (pos_part n) 4 argv (omega arith))
      (λ servers e p. cc)

enough_texts :
    (n : ℤ) (argv : List (List ℕ))
    → 4 ≤ length argv
    → 3 * pos_part n + 4 < 2 ^ 31
    → ltb_ℤ (pos (length argv)) (wanted n) ≡ false
    → 4 + pos_part n * 3 ≤ length argv
enough_texts (pos n) argv four small enough =
    let e : ltb_ℤ (pos (length argv)) (pos (4 + n * 3)) ≡ false =
      rw (wanted-small n small) at enough in
    ground arith
enough_texts (negsuc n) argv four small enough = omega arith

server_start-IsWithin :
    (junk fd bind : ℤ) (argv : List (List ℕ))
    → 4 ≤ length argv
    → ((n : ℤ) → number 3 argv ≡ fine n → 3 * pos_part n + 4 < 2 ^ 31)
    → IsWithin (server_start junk fd bind argv)
unfolding server_start
server_start-IsWithin junk fd bind argv four small =
    bind-IsWithin (number 1 argv) _ (number-IsWithin 1 argv (omega arith)) (λ port a.
      bind-IsWithin (number 2 argv) _ (number-IsWithin 2 argv (omega arith)) (λ id b.
        bind-IsWithin (number 3 argv) _ (number-IsWithin 3 argv (omega arith)) (λ n c.
          elim (Bool-cases (ltb_ℤ (pos (length argv)) (wanted n))) [
            | inl few ↦ rw few (λ p. cc)
            | inr enough ↦
                let made = init_server fd bind port (Socket.new junk) in
                rw enough (
                  served-IsWithin junk n argv id port made.0 made.1 (small n c)
                    (enough_texts n argv four (small n c) enough))
          ])))

-- main reads no argument behind the last one, whatever the arguments are, if the number of peers is
-- small enough for four and three times it to be an `int`.
pub server_main-IsWithin :
    (junk fd bind : ℤ) (argv : List (List ℕ))
    → ((n : ℤ) → number 3 argv ≡ fine n → 3 * pos_part n + 4 < 2 ^ 31)
    → server_main junk fd bind argv ≢ past_end
unfolding server_main
server_main-IsWithin junk fd bind argv small = elim (Bool-cases (ltb (length argv) 4)) [
  | inl few ↦ rw few (λ p. cc)
  | inr four ↦ rw four (server_start-IsWithin junk fd bind argv (ground arith) small)
]
