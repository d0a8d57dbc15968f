-- ===== src/Messages/MapOp.antt =====
-- class MapOp (src/Messages.h, src/Messages.cpp).
use cs.Base.{length, ℕ, ◌+◌, append-nil, ◌≡◌, Bool, ◌∷◌, [], List, arith, not}
use cs.Base.Int.{ℤ, minus_one, eqb_ℤ}
use cs.Base.Word.{IsInt}
use cs.Wire.{Host, IsHost, Writer, store, ◌>>◌, put_int, Reader, pure, ◌>>=◌, get_int, ints_bytes}
use cs.Wire.Laws.{Reads, Reads-pure, get_int-then, put_int-store, store-store, length-ints_bytes}

pub record MapOp : Type 0 where
  pub opcode : ℤ
  pub arg1 : ℤ
  pub arg2 : ℤ

unfoldable pub new : MapOp
new = record { opcode = minus_one; arg1 = minus_one; arg2 = minus_one }

unfoldable pub set_map_op : MapOp → ℤ → ℤ → ℤ → MapOp
set_map_op r op a1 a2 = record r { opcode = op; arg1 = a1; arg2 = a2 }

unfoldable pub copy_map_op : MapOp → MapOp → MapOp
copy_map_op r op = record r { opcode = op.opcode; arg1 = op.arg1; arg2 = op.arg2 }

unfoldable pub size : ℕ
size = 4 + 4 + 4

unfoldable pub marshal : Host → MapOp → Writer
marshal h r = put_int h r.opcode >> put_int h r.arg1 >> put_int h r.arg2

unfoldable pub unmarshal : Host → Reader MapOp
unmarshal h = do
  opcode ← get_int h
  arg1 ← get_int h
  arg2 ← get_int h
  pure (record { opcode = opcode; arg1 = arg1; arg2 = arg2 })

unfoldable pub is_valid : MapOp → Bool
is_valid r = not (eqb_ℤ r.opcode minus_one)

-- The bytes on the wire.
unfoldable pub encode : MapOp → List ℕ
encode r = ints_bytes (r.opcode ∷ r.arg1 ∷ r.arg2 ∷ [])

-- Each field is a value of the C++ type.
pub record IsWire (r : MapOp) : Type 0 where
  pub opcode : IsInt r.opcode
  pub arg1 : IsInt r.arg1
  pub arg2 : IsInt r.arg2

pub length-encode : (r : MapOp) → length (encode r) ≡ size
unfolding encode size
length-encode r = omega (arith, length-ints_bytes (r.opcode ∷ r.arg1 ∷ r.arg2 ∷ []))

module _ (h : Host) (laws : IsHost h) where
  pub marshal-encode : (r : MapOp) → marshal h r ≡ store (encode r)
  unfolding marshal encode ints_bytes
  marshal-encode r = simp (put_int-store h laws, store-store, append-nil)

  pub unmarshal-Reads : (r : MapOp) → IsWire r → Reads (unmarshal h) (encode r) r
  unfolding unmarshal encode ints_bytes
  unmarshal-Reads r w =
      get_int-then h laws _ _ _ _ w.opcode
        (get_int-then h laws _ _ _ _ w.arg1 (get_int-then h laws _ _ _ _ w.arg2 (Reads-pure r)))
