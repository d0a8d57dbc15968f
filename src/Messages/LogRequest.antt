-- ===== src/Messages/LogRequest.antt =====
-- class LogRequest (src/Messages.h, src/Messages.cpp): its last field is a `MapOp`.
use cs.Base.{length, arith, ℕ, ◌+◌, ◌≡◌, Bool, ◌∷◌, [], List, not}
use cs.Base.Int.{ℤ, minus_one, eqb_ℤ}
use cs.Base.Word.{IsInt}
use cs.Messages.MapOp
use cs.Messages.MapOp.{MapOp}
use cs.Wire.{Host, IsHost, Writer, store, ◌>>◌, put_int, Reader, pure, ◌>>=◌, get_int, ints_then}
use cs.Wire.Laws.{Reads, Reads-last, get_int-then, put_int-store, store-store, length-ints_then}

pub record LogRequest : Type 0 where
  pub factory_id : ℤ
  pub committed_index : ℤ
  pub last_index : ℤ
  pub op : MapOp

unfoldable pub new : LogRequest
unfolding MapOp.new
new = record {
  factory_id = minus_one;
  committed_index = minus_one;
  last_index = minus_one;
  op = MapOp.new;
}

unfoldable pub copy_request : LogRequest → LogRequest → LogRequest
unfolding MapOp.copy_map_op
copy_request r request = record r {
  factory_id = request.factory_id;
  committed_index = request.committed_index;
  last_index = request.last_index;
  op = MapOp.copy_map_op r.op request.op;
}

unfoldable pub set_factory_id : LogRequest → ℤ → LogRequest
set_factory_id r id = record r { factory_id = id }

unfoldable pub set_committed_index : LogRequest → ℤ → LogRequest
set_committed_index r index = record r { committed_index = index }

unfoldable pub set_last_index : LogRequest → ℤ → LogRequest
set_last_index r index = record r { last_index = index }

unfoldable pub set_map_op : LogRequest → MapOp → LogRequest
set_map_op r op = record r { op = op }

unfoldable pub size : ℕ
unfolding MapOp.size
size = 4 + 4 + 4 + MapOp.size

unfoldable pub marshal : Host → LogRequest → Writer
marshal h r =
    put_int h r.factory_id
    >> put_int h r.committed_index
    >> put_int h r.last_index
    >> MapOp.marshal h r.op

unfoldable pub unmarshal : Host → Reader LogRequest
unmarshal h = do
  factory_id ← get_int h
  committed_index ← get_int h
  last_index ← get_int h
  op ← MapOp.unmarshal h
  pure (record {
    factory_id = factory_id;
    committed_index = committed_index;
    last_index = last_index;
    op = op;
  })

unfoldable pub is_valid : LogRequest → Bool
is_valid r = not (eqb_ℤ r.factory_id minus_one)

-- The bytes on the wire.
unfoldable pub encode : LogRequest → List ℕ
encode r = ints_then (r.factory_id ∷ r.committed_index ∷ r.last_index ∷ []) (MapOp.encode r.op)

-- Each field is a value of the C++ type.
pub record IsWire (r : LogRequest) : Type 0 where
  pub factory_id : IsInt r.factory_id
  pub committed_index : IsInt r.committed_index
  pub last_index : IsInt r.last_index
  pub op : MapOp.IsWire r.op

pub length-encode : (r : LogRequest) → length (encode r) ≡ size
unfolding encode size
length-encode r = omega (
  arith,
  length-ints_then (r.factory_id ∷ r.committed_index ∷ r.last_index ∷ []) (MapOp.encode r.op),
  MapOp.length-encode r.op,
)

module _ (h : Host) (laws : IsHost h) where
  pub marshal-encode : (r : LogRequest) → marshal h r ≡ store (encode r)
  unfolding marshal encode ints_then
  marshal-encode r = simp (put_int-store h laws, MapOp.marshal-encode h laws, store-store)

  pub unmarshal-Reads : (r : LogRequest) → IsWire r → Reads (unmarshal h) (encode r) r
  unfolding unmarshal encode ints_then
  unmarshal-Reads r w =
      (get_int-then h laws _ _ _ _ w.factory_id (
        get_int-then h laws _ _ _ _ w.committed_index (
          get_int-then h laws _ _ _ _ w.last_index
            (Reads-last (MapOp.unmarshal h) _ _ r.op (MapOp.unmarshal-Reads h laws r.op w.op)))))
