-- ===== src/Stubs/Configs.antt =====
-- The server map that a server sends when a customer connects: ServerStub::SendServerConfig
-- against ClientStub::receiveServerConfig.
use cs.Base.{
  append-nil, ℕ, ◌<◌, ◌^◌, ◌≡◌, refl, subst, ◌∙◌, true, some, none, List, [], ◌∷◌, ◌++◌, length,
  replicate, le→leb, arith, length-replicate,
}
use cs.Base.Int.{ℤ, pos}
use cs.Base.Word.{to_u32, u32_mod, network_bytes, length-network_bytes}
use cs.Map.{IsSorted}
use cs.Messages.ServerConfig
use cs.Messages.ServerConfig.{ServerConfig}
use cs.Messages.ServerConfig.RoundTrip
use cs.Socket.{Conn, returns, fault, ◌>>=◌, recv, recv_loop}
use cs.Socket.Delivery.{joined, IsDelivery, Takes, send-all}
use cs.Stubs.{recv_into, int_size-small, send_message}
use cs.Stubs.Client
use cs.Stubs.Exchange.{send_message-store, receive_message-Reads, recv_into-bytes, read-Reads}
use cs.Stubs.Server
use cs.Wire
use cs.Wire.{Host, IsHost, Reader, load, put_int}
use cs.Wire.Laws.{Reads, get_word-Reads, put_int-store, load-Reads}

module _ (h : Host) (laws : IsHost h) where
  send_whole :
      (w : Wire.Writer) (bytes : List ℕ) (size : ℕ) (answers more : List ℤ) (c : Conn)
      → w ≡ Wire.store bytes
      → length bytes ≡ size
      → c.sends ≡ answers ++ more
      → Takes answers size
      → send_message w size (replicate size 0) c
        ≡ returns true (record c { sends = more; sent = c.sent ++ bytes })
  send_whole w bytes size answers more c e f es t =
      send_message-store w bytes (replicate size 0) size c e f
      ∙ rw (length-replicate {A = ℕ} size 0, le→leb size size (omega arith))
          (send-all answers more bytes c es (rw f t))

  -- The bytes of a configuration: its size, and its contents.
  abbrev header : ServerConfig → List ℕ
  header config = network_bytes (to_u32 (pos (ServerConfig.size config)))

  send_config :
      (config : ServerConfig) (first rest more : List ℤ) (c : Conn)
      → c.sends ≡ first ++ (rest ++ more)
      → Takes first 4
      → Takes rest (ServerConfig.size config)
      → ServerConfig.size config < 2 ^ 31
      → Server.send_server_config h config c
        ≡ returns true
            (record c { sends = more; sent = c.sent ++ header config ++ RoundTrip.encode h config })
  unfolding Server.send_server_config ◌>>=◌
  send_config config first rest more c es t u small =
      rw (int_size-small (ServerConfig.size config) small) (
        rw
          (send_whole (put_int h (pos (ServerConfig.size config))) (header config) 4 first
            (rest ++ more) c (put_int-store h laws (pos (ServerConfig.size config)))
            (length-network_bytes _) es t)
          (send_whole (ServerConfig.marshal h config) (RoundTrip.encode h config)
            (ServerConfig.size config) rest more _ (RoundTrip.marshal-encode h laws config)
            (RoundTrip.length-encode h laws config) refl u))

  header-word : (n : ℕ) → n < u32_mod → Reads (Wire.get_word h) (network_bytes (to_u32 (pos n))) n
  unfolding to_u32
  header-word n small =
      subst (λ k. Reads (Wire.get_word h) (network_bytes k) n) (omega arith)
        (get_word-Reads h laws n small)

  receive_config :
      (config : ServerConfig) (buffer : List ℕ) (chunks pieces later : List (List ℕ)) (d : Conn)
      → IsSorted config.servers
      → RoundTrip.IsWire config
      → ServerConfig.size config < 2 ^ 31
      → length buffer ≡ 4
      → d.arrivals ≡ chunks ++ (pieces ++ later)
      → IsDelivery chunks
      → IsDelivery pieces
      → joined chunks ≡ header config
      → joined pieces ≡ RoundTrip.encode h config
      → Client.receive_server_config h buffer d ≡ returns config (record d { arrivals = later })
  unfolding Client.receive_server_config ◌>>=◌
  receive_config config buffer chunks pieces later d s w small eb ea dc dp jc jp =
      let after = record d { arrivals = pieces ++ later } in
      let n = ServerConfig.size config in
      rw
        (recv_into-bytes (header config) 4 chunks (pieces ++ later) buffer d
          (length-network_bytes _) (omega arith) ea dc jc)
        (rw
          (
            read-Reads n (Wire.get_word h) (header config) buffer after
                (header-word n (omega arith)),
            int_size-small n small,
          )
          (receive_message-Reads ServerConfig.new config (ServerConfig.unmarshal h ServerConfig.new)
            (RoundTrip.encode h config) (replicate n 0) n pieces later after
            (RoundTrip.unmarshal-Reads h laws config s w) (RoundTrip.length-encode h laws config)
            (omega (arith, length-replicate {A = ℕ} n 0)) refl dp jp))

  -- A server map in the order of its ids whose size is an `int`, sent to a machine of the same
  -- kind: the size and the contents go out whole, and the client that they reach, in any pieces,
  -- has the same map.
  pub config_link :
      (config : ServerConfig) (buffer : List ℕ) (first rest more : List ℤ) (c : Conn)
      → IsSorted config.servers
      → RoundTrip.IsWire config
      → ServerConfig.size config < 2 ^ 31
      → length buffer ≡ 4
      → c.sends ≡ first ++ (rest ++ more)
      → Takes first 4
      → Takes rest (ServerConfig.size config)
      → (head : List ℕ) × (body : List ℕ) × (Server.send_server_config h config c
          ≡ returns true (record c { sends = more; sent = c.sent ++ head ++ body }))
        × ((chunks pieces later : List (List ℕ)) (d : Conn)
            → d.arrivals ≡ chunks ++ (pieces ++ later)
            → IsDelivery chunks
            → IsDelivery pieces
            → joined chunks ≡ head
            → joined pieces ≡ body
            → Client.receive_server_config h buffer d
              ≡ returns config (record d { arrivals = later }))
  config_link config buffer first rest more c s w small eb es t u = (
    header config,
    RoundTrip.encode h config,
    send_config config first rest more c es t u small,
    λ chunks pieces later d ea dc dp jc jp.
        receive_config config buffer chunks pieces later d s w small eb ea dc dp jc jp,
  )

load-four : (bytes : List ℕ) → length bytes ≡ 4 → load 4 bytes ≡ some (bytes, [])
unfolding load
load-four bytes e =
    rw (append-nil bytes) at (subst (λ n. Reads (load n) bytes bytes) e (load-Reads bytes) [])

load-none : load 4 [] ≡ none
unfolding load
load-none = refl

-- The connection is lost before the header arrives, and the array for it happens to hold a word
-- that reads as 0: the size of the message is then taken to be 0, Recv of no bytes answers 1, and
-- Unmarshal reads past the end of an empty vector.
pub config_lost :
    (h : Host) (buffer : List ℕ) (more : List (List ℕ)) (d : Conn)
    → length buffer ≡ 4
    → h.ntohl (h.from_bytes buffer) ≡ 0
    → d.arrivals ≡ [] ∷ more
    → Client.receive_server_config h buffer d ≡ fault
unfolding Client.receive_server_config ◌>>=◌ recv recv_loop recv_into Wire.get_word Wire.◌>>=◌
    Wire.get_int
config_lost h buffer more d e zero_word lost =
    rw (e, lost, load-four buffer e, zero_word, load-none)
