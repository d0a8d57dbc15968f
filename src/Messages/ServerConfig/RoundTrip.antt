-- ===== src/Messages/ServerConfig/RoundTrip.antt =====
-- A ServerConfig on the wire, and back.
use cs.Base.{
  ℕ, ◌<◌, ◌^◌, ◌≡◌, refl, List, [], ◌∷◌, ◌++◌, length, arith, append-nil, fun_ext, length-append,
  ap, ◌∙◌, some,
}
use cs.Base.Int.{pos}
use cs.Base.Word.{IsInt, to_u32, network_bytes, length-network_bytes}
use cs.Map
use cs.Map.{Map, IsSorted}
use cs.Map.Rebuild.{assign_all, assign_all-nil}
use cs.Messages.ServerInfo
use cs.Messages.ServerInfo.{ServerInfo}
use cs.Messages.ServerConfig.{
  ServerConfig, new, size, size_servers, marshal, marshal_servers, unmarshal, unmarshal_servers,
}
use cs.Wire.{Host, IsHost, Out, store}
use cs.Wire.Laws.{
  Reads, Reads-pure, Reads-last, Reads-peek, get_int-then, put_int-store, store-store,
}

unfoldable pub encode_servers : Host → Map ServerInfo → List ℕ
encode_servers h [] = []
encode_servers h ((id, info) ∷ m) =
    network_bytes (to_u32 id) ++ (ServerInfo.encode h info ++ encode_servers h m)

-- The bytes that the host `h` puts on the wire.
unfoldable pub encode : Host → ServerConfig → List ℕ
unfolding encode_servers
encode h c = network_bytes (to_u32 (pos (length c.servers))) ++ encode_servers h c.servers

abbrev pub IsWireServers : Map ServerInfo → Type 0
IsWireServers [] = Unit {0}
IsWireServers ((id, info) ∷ m) = IsInt id × ServerInfo.IsWire info × IsWireServers m

pub record IsWire (c : ServerConfig) : Type 0 where
  pub count : length c.servers < 2 ^ 31
  pub servers : IsWireServers c.servers

store-nil_at : (o : Out) → some o ≡ store [] o
unfolding store
store-nil_at o = ground (arith, append-nil o.written)

module _ (h : Host) (laws : IsHost h) where
  marshal_servers-encode : (m : Map ServerInfo) → marshal_servers h m ≡ store (encode_servers h m)
  unfolding marshal_servers encode_servers
  marshal_servers-encode [] = fun_ext store-nil_at
  marshal_servers-encode ((id, info) ∷ m) =
      simp
        (put_int-store h laws, ServerInfo.marshal-encode h, marshal_servers-encode m, store-store)

  pub marshal-encode : (c : ServerConfig) → marshal h c ≡ store (encode h c)
  unfolding marshal encode
  marshal-encode c = simp (put_int-store h laws, marshal_servers-encode, store-store)

  length-encode_servers : (m : Map ServerInfo) → length (encode_servers h m) ≡ size_servers m
  unfolding encode_servers size_servers
  length-encode_servers [] = refl
  length-encode_servers ((id, info) ∷ m) = omega (
    arith,
    length-append (network_bytes (to_u32 id)) (ServerInfo.encode h info ++ encode_servers h m),
    length-append (ServerInfo.encode h info) (encode_servers h m),
    length-network_bytes (to_u32 id),
    ServerInfo.length-encode h laws info,
    length-encode_servers m,
  )

  pub length-encode : (c : ServerConfig) → length (encode h c) ≡ size c
  unfolding encode size
  length-encode c = omega (
    arith,
    length-append (network_bytes (to_u32 (pos (length c.servers)))) (encode_servers h c.servers),
    length-network_bytes (to_u32 (pos (length c.servers))),
    length-encode_servers c.servers,
  )

  -- The loop adds what the wire carries to the map that it has.
  unmarshal_servers-Reads :
      (m acc : Map ServerInfo)
      → IsWireServers m
      → Reads (unmarshal_servers h (length m) acc) (encode_servers h m) (assign_all m acc)
  unfolding unmarshal_servers encode_servers assign_all
  unmarshal_servers-Reads [] acc w = Reads-pure acc
  unmarshal_servers-Reads ((id, info) ∷ m) acc w = get_int-then h laws _ _ _ _ w.0 (
      Reads-peek (ServerInfo.unmarshal h) ServerInfo.size _ _ _ _ _
        (ServerInfo.length-encode h laws info) (ServerInfo.unmarshal-Reads h laws info w.1)
        (unmarshal_servers-Reads m (Map.assign id info acc) w.2))

  unmarshal-Reads_onto :
      (c d : ServerConfig)
      → IsWire c
      → Reads (unmarshal h d) (encode h c) (record { servers = assign_all c.servers d.servers })
  unfolding unmarshal encode
  unmarshal-Reads_onto c d w = get_int-then h laws _ _ _ _ (omega (arith, w.count)) (
      Reads-last (unmarshal_servers h (length c.servers) d.servers) _ _ _
        (unmarshal_servers-Reads c.servers d.servers w.servers))

  -- Onto an empty configuration the whole map is read back.
  pub unmarshal-Reads :
      (c : ServerConfig) → IsSorted c.servers → IsWire c → Reads (unmarshal h new) (encode h c) c
  unfolding new
  unmarshal-Reads c s w rest =
      unmarshal-Reads_onto c new w rest
      ∙ ap (λ (m : Map ServerInfo). some (record { servers = m }, rest))
          (assign_all-nil c.servers s)
