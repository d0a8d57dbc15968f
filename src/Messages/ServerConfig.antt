-- ===== src/Messages/ServerConfig.antt =====
-- class ServerConfig (src/Messages.h, src/Messages.cpp): the addresses of all servers, by id.
pub mod RoundTrip
use cs.Base.{ℕ, zero, suc, ◌+◌, List, [], ◌∷◌, length, some}
use cs.Base.Int.{ℤ, pos, pos_part}
use cs.Map
use cs.Map.{Map, find}
use cs.Messages.ServerInfo
use cs.Messages.ServerInfo.{ServerInfo}
use cs.Wire.{Host, Writer, ◌>>◌, put_int, Reader, pure, ◌>>=◌, get_int, peek, skip}

pub record ServerConfig : Type 0 where
  pub servers : Map ServerInfo

unfoldable pub new : ServerConfig
new = record { servers = [] }

-- std::map::insert: an id that is there keeps its server.
unfoldable pub set_server : ServerConfig → ℤ → ServerInfo → ServerConfig
unfolding Map.insert
set_server c id info = record c { servers = Map.insert id info c.servers }

unfoldable pub size_servers : Map ServerInfo → ℕ
unfolding ServerInfo.size
size_servers [] = 0
size_servers ((id, info) ∷ m) = 4 + ServerInfo.size info + size_servers m

unfoldable pub size : ServerConfig → ℕ
unfolding size_servers
size c = 4 + size_servers c.servers

unfoldable pub marshal_servers : Host → Map ServerInfo → Writer
marshal_servers h [] = some
marshal_servers h ((id, info) ∷ m) =
    put_int h id >> ServerInfo.marshal h info >> marshal_servers h m

unfoldable pub marshal : Host → ServerConfig → Writer
marshal h c = put_int h (pos (length c.servers)) >> marshal_servers h c.servers

-- The loop of Unmarshal, for the rounds that are left.
unfoldable pub unmarshal_servers : Host → ℕ → Map ServerInfo → Reader (Map ServerInfo)
unmarshal_servers h zero servers = pure servers
unmarshal_servers h (suc rounds) servers = do
  key ← get_int h
  info ← peek (ServerInfo.unmarshal h)
  _ ← skip (ServerInfo.size info)
  unmarshal_servers h rounds (Map.assign key info servers)

-- A count below zero makes no round.
unfoldable pub unmarshal : Host → ServerConfig → Reader ServerConfig
unmarshal h c = do
  server_count ← get_int h
  servers ← unmarshal_servers h (pos_part server_count) c.servers
  pure (record { servers = servers })
