-- ===== src/Messages/ServerInfo.antt =====
-- class ServerInfo (src/Messages.h, src/Messages.cpp). Its integers travel in the byte order of
-- the host that wrote them.
use cs.Base.{ℕ, ◌+◌, ◌%◌, ◌<◌, ◌^◌, ◌≡◌, ◌++◌, List, length, length-append, arith}
use cs.Base.Int.{ℤ}
use cs.Base.Word.{IsInt, to_u32, u32_mod}
use cs.Wire.{
  Host, IsHost, Writer, store, ◌>>◌, put_host_word, put_host_int, Reader, pure, ◌>>=◌,
  get_host_word, get_host_int, get_text,
}
use cs.Wire.Laws.{
  Reads, Reads-last, Reads-bind, IsText, get_text-Reads, get_host_word-Reads, get_host_int-Reads,
  store-store,
}

pub record ServerInfo : Type 0 where
  pub ip_address : List ℕ
  pub port_number : ℤ

unfoldable pub new : List ℕ → ℤ → ServerInfo
new ip_address port_number = record { ip_address = ip_address; port_number = port_number }

unfoldable pub size : ServerInfo → ℕ
size s = 4 + length s.ip_address + 4

unfoldable pub marshal : Host → ServerInfo → Writer
marshal h s =
    put_host_word h (length s.ip_address) >> store s.ip_address >> put_host_int h s.port_number

unfoldable pub unmarshal : Host → Reader ServerInfo
unmarshal h = do
  ip_length ← get_host_word h
  ip_address ← get_text ip_length
  port_number ← get_host_int h
  pure (record { ip_address = ip_address; port_number = port_number })

-- The bytes that the host `h` puts on the wire.
unfoldable pub encode : Host → ServerInfo → List ℕ
encode h s =
    h.to_bytes (length s.ip_address % u32_mod)
    ++ (s.ip_address ++ h.to_bytes (to_u32 s.port_number))

pub record IsWire (s : ServerInfo) : Type 0 where
  pub ip_length : length s.ip_address < 2 ^ 32
  pub ip_address : IsText s.ip_address
  pub port_number : IsInt s.port_number

pub marshal-encode : (h : Host) (s : ServerInfo) → marshal h s ≡ store (encode h s)
unfolding marshal encode put_host_word put_host_int
marshal-encode h s = simp store-store

module _ (h : Host) (laws : IsHost h) where
  pub unmarshal-Reads : (s : ServerInfo) → IsWire s → Reads (unmarshal h) (encode h s) s
  unfolding unmarshal encode
  unmarshal-Reads s w =
      Reads-bind (get_host_word h) _ _ _ _ _
        (get_host_word-Reads h laws (length s.ip_address) w.ip_length)
        (Reads-bind (get_text (length s.ip_address)) _ _ _ _ _
          (get_text-Reads s.ip_address w.ip_address)
          (Reads-last (get_host_int h) _ _ _
            (get_host_int-Reads h laws s.port_number w.port_number)))

  pub length-encode : (s : ServerInfo) → length (encode h s) ≡ size s
  unfolding encode size
  length-encode s = omega (
    arith,
    length-append (h.to_bytes (length s.ip_address % u32_mod))
        (s.ip_address ++ h.to_bytes (to_u32 s.port_number)),
    length-append s.ip_address (h.to_bytes (to_u32 s.port_number)),
    laws.size (length s.ip_address % u32_mod),
    laws.size (to_u32 s.port_number),
  )
