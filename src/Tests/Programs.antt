-- ===== src/Tests/Programs.antt =====
-- Runs of src/ServerMain.cpp, src/ClientMain.cpp, src/ClientSocket.cpp and src/ClientTimer.cpp.
use cs.Base.{ℕ, ◌+◌, ◌*◌, ◌^◌, ◌<◌, ◌≡◌, ◌≢◌, refl, subst, List, [], ◌∷◌, none, arith, ◌⊎◌}
use cs.Base.Int.{ℤ, pos, negsuc, pos_part}
use cs.Engineer.Servers.{IsConsistent, Repeats}
use cs.Programs.{
  accept_loop, fine, past_end, serving, localhost, number, server_start, wanted, peers, atoi_signed,
  server_main, atoi, argument,
}
use cs.Programs.Engineers.{IsRow, accept_loop-IsRow}
use cs.Programs.Serving.{Peer, argv_of, configured, server_main-serving, server_main-IsWithin}
use cs.Socket
use cs.Socket.{Socket}
use cs.Socket.Leaks.{left_open, try_servers_leaks}
use cs.Base.Word.{to_u32, of_u32}
use cs.Socket.Setup.{init_server, try_servers}
use cs.Utilities.{skip_spaces, read_digits}

abbrev text : List ℕ
text = b's' ∷ []

abbrev one_peer : List Peer
one_peer = (pos 2, localhost, pos 9000) ∷ []

abbrev one_server : List (List ℕ)
one_server = text ∷ (b'8' ∷ b'0' ∷ []) ∷ (b'1' ∷ []) ∷ (b'0' ∷ []) ∷ []

server_main-serving_example :
    (s : Socket) × (server_main (pos 0) (pos 3) (pos 0) (argv_of text (pos 8000) (pos 1) one_peer)
      ≡ fine (serving (pos 1) s (configured (pos 0) (pos 1) (pos 8000) one_peer)))
    × (IsConsistent (configured (pos 0) (pos 1) (pos 8000) one_peer)
        ⊎ Repeats [] ((pos 1, localhost, pos 8000) ∷ one_peer))
server_main-serving_example =
    server_main-serving (pos 0) (pos 3) (pos 0) (pos 8000) (pos 1) text one_peer (omega arith)
      (omega arith) (omega arith, omega arith) (omega arith, omega arith)
      (((omega arith, omega arith), (omega arith, omega arith)), tt) (omega arith)

-- 1431655765 peers are wanted, and 4 + 3 * 1431655765 wraps to 3: main reads behind its arguments.
abbrev too_many : List (List ℕ)
too_many =
    text
    ∷ (b'8' ∷ [])
    ∷ (b'1' ∷ [])
    ∷ (b'1' ∷ b'4' ∷ b'3' ∷ b'1' ∷ b'6' ∷ b'5' ∷ b'5' ∷ b'7' ∷ b'6' ∷ b'5' ∷ [])
    ∷ []

reads_behind : server_main (pos 0) (pos 3) (pos 0) too_many ≡ past_end
unfolding server_main server_start number argument atoi atoi_signed skip_spaces read_digits wanted
    to_u32 of_u32 init_server Socket.new peers
reads_behind = refl

no_peers : (n : ℤ) → number 3 one_server ≡ fine n → 3 * pos_part n + 4 < 2 ^ 31
unfolding number argument atoi atoi_signed skip_spaces read_digits
no_peers n e =
    let zero_peers : pos 0 ≡ n = cc in
    subst (λ (k : ℤ). 3 * pos_part k + 4 < 2 ^ 31) zero_peers (omega arith)

server_main-IsWithin_example : server_main (pos 0) (pos 3) (pos 0) one_server ≢ past_end
server_main-IsWithin_example = server_main-IsWithin (pos 0) (pos 3) (pos 0) one_server no_peers

-- Two servers that cannot be reached.
try_servers_leaks_example :
    ((try_servers
        (λ ip. 0)
        (pos 0)
        ((pos 5, negsuc 0, localhost, pos 80) ∷ (pos 6, negsuc 0, localhost, pos 81) ∷ [])).0
      ≡ none)
    × (left_open
          (try_servers
            (λ ip. 0)
            (pos 0)
            ((pos 5, negsuc 0, localhost, pos 80) ∷ (pos 6, negsuc 0, localhost, pos 81) ∷ [])).1
        ≡ pos 5 ∷ pos 6 ∷ [])
try_servers_leaks_example =
    try_servers_leaks (λ ip. 0) (pos 0)
      ((pos 5, negsuc 0, localhost, pos 80) ∷ (pos 6, negsuc 0, localhost, pos 81) ∷ [])
      (omega arith, omega arith, (omega arith, omega arith, tt))

-- The third connection fails.
abbrev three_answers : List (ℤ × ℤ)
three_answers = (pos 7, pos 0) ∷ (pos 8, negsuc 0) ∷ (negsuc 0, pos 0) ∷ (pos 9, pos 0) ∷ []

accept_loop-IsRow_example :
    IsRow
      (Socket.new (pos 0))
      0
      (pos 7 ∷ pos 8 ∷ [])
      (accept_loop (pos 0) (Socket.new (pos 0)) three_answers 0)
accept_loop-IsRow_example = accept_loop-IsRow (pos 0) (Socket.new (pos 0)) three_answers 0
