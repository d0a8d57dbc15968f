-- ===== src/Tests/Wire.antt =====
-- Runs of src/Messages.cpp, src/Socket.cpp and the stubs.
use cs.Base.{ℕ, ◌≡◌, refl, true, false, List, [], ◌∷◌, ◌++◌, replicate, length, arith}
use cs.Base.Int.{ℤ, pos, negsuc}
use cs.Base.Word.{network_bytes, to_u32}
use cs.Messages.Command.{default_ip}
use cs.Messages.CustomerRequest.{CustomerRequest}
use cs.Messages.LaptopInfo
use cs.Messages.LaptopInfo.{LaptopInfo}
use cs.Messages.PaxosMsg
use cs.Messages.PaxosMsg.{PaxosMsg}
use cs.Messages.ServerConfig
use cs.Messages.ServerConfig.{ServerConfig}
use cs.Socket.{Socket, Conn, returns, fault, send, recv, got, close}
use cs.Socket.Delivery.{joined, IsDelivery, Sends, send-all, recv-all, send-Sends}
use cs.Stubs.Client
use cs.Stubs.Configs.{config_link, config_lost}
use cs.Stubs.Links.{paxos_link, send_paxos_msg_fits}
use cs.Stubs.Orders.{order_link}
use cs.Stubs.Server
use cs.Wire.{ints_bytes}
use cs.Wire.Hosts.{little_endian, big_endian, little_endian-IsHost, big_endian-IsHost}

abbrev open_socket : Socket
open_socket = record { fd = pos 5; is_initialized = true; nagle = 0 }

abbrev quiet : List ℤ → List (List ℕ) → Conn
quiet sends arrivals = record {
  socket = open_socket;
  sends = sends;
  arrivals = arrivals;
  sent = [];
}

abbrev zeros : ℕ → List ℕ
zeros n = replicate n 0

-- phase 1 of proposal 7
abbrev prepare_7 : PaxosMsg
prepare_7 = record {
  phase = pos 1;
  agree = pos 0;
  propose_number = pos 7;
  accepted_proposal = negsuc 0;
  slot_number = negsuc 0;
  command_id = negsuc 0;
  client_ip = default_ip;
  customer_id = negsuc 0;
  order_id = negsuc 0;
}

prepare_7-IsWire : PaxosMsg.IsWire prepare_7
prepare_7-IsWire = omega arith

prepare_7_size : PaxosMsg.size prepare_7 ≡ 51
unfolding PaxosMsg.size
prepare_7_size = refl

send_cut :
    send (1 ∷ 2 ∷ 3 ∷ []) (quiet (pos 1 ∷ pos 2 ∷ []) [])
    ≡ returns true (record (quiet [] []) { sent = 1 ∷ 2 ∷ 3 ∷ [] })
unfolding send
send_cut = refl

send_broken :
    send (1 ∷ 2 ∷ 3 ∷ []) (quiet (pos 1 ∷ negsuc 0 ∷ []) [])
    ≡ returns false (record (quiet [] []) { socket = close open_socket; sent = 1 ∷ [] })
unfolding send close
send_broken = refl

send-all_example :
    send (1 ∷ 2 ∷ 3 ∷ []) (quiet (pos 1 ∷ pos 2 ∷ pos 9 ∷ []) [])
    ≡ returns true (record (quiet (pos 9 ∷ []) []) { sent = 1 ∷ 2 ∷ 3 ∷ [] })
send-all_example =
    send-all (pos 1 ∷ pos 2 ∷ []) (pos 9 ∷ []) (1 ∷ 2 ∷ 3 ∷ [])
      (quiet (pos 1 ∷ pos 2 ∷ pos 9 ∷ []) []) refl (omega arith)

send-Sends_example :
    Sends
      (1 ∷ 2 ∷ 3 ∷ [])
      (quiet (pos 1 ∷ negsuc 0 ∷ []) [])
      (send (1 ∷ 2 ∷ 3 ∷ []) (quiet (pos 1 ∷ negsuc 0 ∷ []) []))
send-Sends_example = send-Sends (1 ∷ 2 ∷ 3 ∷ []) (quiet (pos 1 ∷ negsuc 0 ∷ []) [])

abbrev two_chunks : List (List ℕ)
two_chunks = (1 ∷ []) ∷ (2 ∷ 3 ∷ []) ∷ []

two_chunks-IsDelivery : IsDelivery two_chunks
two_chunks-IsDelivery = (λ e. cc, (λ e. cc, tt))

recv-all_example :
    recv (length (joined two_chunks)) (quiet [] two_chunks)
    ≡ returns (got (joined two_chunks)) (quiet [] [])
recv-all_example = recv-all two_chunks [] (quiet [] two_chunks) refl two_chunks-IsDelivery

send_paxos_msg_fits_example :
    Client.send_paxos_msg big_endian
      (zeros 64)
      (record prepare_7 { client_ip = replicate 29 b'1' })
      (quiet [] [])
    ≡ fault
send_paxos_msg_fits_example =
    send_paxos_msg_fits big_endian big_endian-IsHost
      (record prepare_7 { client_ip = replicate 29 b'1' }) (zeros 64) (quiet [] []) refl

paxos_link_example :
    (bytes : List ℕ) × (Client.send_paxos_msg little_endian
        (zeros 64)
        prepare_7
        (quiet (pos 50 ∷ pos 1 ∷ []) [])
      ≡ returns true (record (quiet [] []) { sent = bytes }))
    × ((chunks later : List (List ℕ)) (d : Conn)
        → d.arrivals ≡ chunks ++ later
        → IsDelivery chunks
        → joined chunks ≡ bytes
        → Server.receive_paxos_msg big_endian (zeros 64) d
          ≡ returns prepare_7 (record d { arrivals = later }))
paxos_link_example =
    paxos_link little_endian big_endian little_endian-IsHost big_endian-IsHost prepare_7 (zeros 64)
      (zeros 64) (pos 50 ∷ pos 1 ∷ []) [] (quiet (pos 50 ∷ pos 1 ∷ []) []) prepare_7-IsWire refl
      refl refl refl (omega arith)

abbrev order_3 : CustomerRequest
order_3 = record { customer_id = pos 3; order_number = pos 0; request_type = pos 1 }

abbrev laptop_3 : LaptopInfo
laptop_3 = record {
  customer_id = pos 3;
  order_number = pos 0;
  request_type = pos 1;
  engineer_id = pos 2;
  admin_id = pos 1;
}

abbrev laptop_3_bytes : List ℕ
laptop_3_bytes = 0 ∷ 0 ∷ 0 ∷ 3 ∷ 0 ∷ 0 ∷ 0 ∷ 0 ∷ 0 ∷ 0 ∷ 0 ∷ 1 ∷ 0 ∷ 0 ∷ 0 ∷ 2 ∷ 0 ∷ 0 ∷ 0 ∷ 1 ∷ []

laptop_3_encoded : joined (laptop_3_bytes ∷ []) ≡ LaptopInfo.encode laptop_3
unfolding joined LaptopInfo.encode ints_bytes network_bytes to_u32
laptop_3_encoded = refl

abbrev ordering : Conn
ordering = quiet (pos 12 ∷ []) (laptop_3_bytes ∷ [])

order_link_example :
    (bytes : List ℕ) × (Client.order big_endian (zeros 32) order_3 ordering
      ≡ returns laptop_3 (record (quiet [] []) { sent = bytes }))
    × ((pieces rest : List (List ℕ)) (d : Conn)
        → d.arrivals ≡ pieces ++ rest
        → IsDelivery pieces
        → joined pieces ≡ bytes
        → Server.receive_request little_endian (zeros 32) d
          ≡ returns order_3 (record d { arrivals = rest }))
order_link_example =
    order_link big_endian little_endian big_endian-IsHost little_endian-IsHost order_3 laptop_3
      (zeros 32) (zeros 32) (pos 12 ∷ []) [] (laptop_3_bytes ∷ []) [] ordering (omega arith)
      (omega arith) refl refl refl (omega arith) refl (λ e. cc, tt) laptop_3_encoded

abbrev one_server : ServerConfig
one_server = record {
  servers = (pos 1, record { ip_address = b'h' ∷ []; port_number = pos 80 }) ∷ [];
}

one_server_size : ServerConfig.size one_server ≡ 17
unfolding ServerConfig.size
one_server_size = refl

config_link_example :
    (head : List ℕ) × (body : List ℕ) × (Server.send_server_config little_endian one_server
        (quiet (pos 4 ∷ pos 17 ∷ []) [])
      ≡ returns true (record (quiet [] []) { sent = [] ++ head ++ body }))
    × ((chunks pieces later : List (List ℕ)) (d : Conn)
        → d.arrivals ≡ chunks ++ (pieces ++ later)
        → IsDelivery chunks
        → IsDelivery pieces
        → joined chunks ≡ head
        → joined pieces ≡ body
        → Client.receive_server_config little_endian (zeros 4) d
          ≡ returns one_server (record d { arrivals = later }))
unfolding ServerConfig.size
config_link_example =
    config_link little_endian little_endian-IsHost one_server (zeros 4) (pos 4 ∷ []) (pos 17 ∷ [])
      [] (quiet (pos 4 ∷ pos 17 ∷ []) []) tt (omega arith) (omega arith) refl refl (omega arith)
      (omega arith)

config_lost_example :
    Client.receive_server_config little_endian (zeros 4) (quiet [] ([] ∷ [])) ≡ fault
config_lost_example = config_lost little_endian (zeros 4) [] (quiet [] ([] ∷ [])) refl refl refl
