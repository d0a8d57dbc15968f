-- ===== src/Messages/LogResponse.antt =====
-- class LogResponse (src/Messages.h, src/Messages.cpp).
use cs.Base.{length, ℕ, append-nil, ◌≡◌, Bool, ◌∷◌, [], List, arith, not}
use cs.Base.Int.{ℤ, minus_one, eqb_ℤ}
use cs.Base.Word.{IsInt}
use cs.Wire.{Host, IsHost, Writer, store, put_int, Reader, pure, ◌>>=◌, get_int, ints_bytes}
use cs.Wire.Laws.{Reads, Reads-pure, get_int-then, put_int-store, length-ints_bytes}

pub record LogResponse : Type 0 where
  pub factory_id : ℤ

unfoldable pub new : LogResponse
new = record { factory_id = minus_one }

unfoldable pub set_factory_id : LogResponse → ℤ → LogResponse
set_factory_id r id = record r { factory_id = id }

unfoldable pub size : ℕ
size = 4

unfoldable pub marshal : Host → LogResponse → Writer
marshal h r = put_int h r.factory_id

unfoldable pub unmarshal : Host → Reader LogResponse
unmarshal h = do factory_id ← get_int h; pure (record { factory_id = factory_id })

unfoldable pub is_valid : LogResponse → Bool
is_valid r = not (eqb_ℤ r.factory_id minus_one)

-- The bytes on the wire.
unfoldable pub encode : LogResponse → List ℕ
encode r = ints_bytes (r.factory_id ∷ [])

-- Each field is a value of the C++ type.
pub record IsWire (r : LogResponse) : Type 0 where
  pub factory_id : IsInt r.factory_id

pub length-encode : (r : LogResponse) → length (encode r) ≡ size
unfolding encode size
length-encode r = omega (arith, length-ints_bytes (r.factory_id ∷ []))

module _ (h : Host) (laws : IsHost h) where
  pub marshal-encode : (r : LogResponse) → marshal h r ≡ store (encode r)
  unfolding marshal encode ints_bytes
  marshal-encode r = simp (put_int-store h laws, append-nil)

  pub unmarshal-Reads : (r : LogResponse) → IsWire r → Reads (unmarshal h) (encode r) r
  unfolding unmarshal encode ints_bytes
  unmarshal-Reads r w = get_int-then h laws _ _ _ _ w.factory_id (Reads-pure r)
