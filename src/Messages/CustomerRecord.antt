-- ===== src/Messages/CustomerRecord.antt =====
-- class CustomerRecord (src/Messages.h, src/Messages.cpp).
use cs.Base.{length, ℕ, ◌+◌, append-nil, ◌≡◌, Bool, ◌∷◌, [], List, arith, not}
use cs.Base.Int.{ℤ, minus_one, eqb_ℤ}
use cs.Base.Word.{IsInt}
use cs.Wire.{Host, IsHost, Writer, store, ◌>>◌, put_int, Reader, pure, ◌>>=◌, get_int, ints_bytes}
use cs.Wire.Laws.{Reads, Reads-pure, get_int-then, put_int-store, store-store, length-ints_bytes}

pub record CustomerRecord : Type 0 where
  pub customer_id : ℤ
  pub last_order : ℤ

unfoldable pub new : CustomerRecord
new = record { customer_id = minus_one; last_order = minus_one }

unfoldable pub set_customer_record : CustomerRecord → ℤ → ℤ → CustomerRecord
set_customer_record r id order_number = record r { customer_id = id; last_order = order_number }

unfoldable pub size : ℕ
size = 4 + 4

unfoldable pub marshal : Host → CustomerRecord → Writer
marshal h r = put_int h r.customer_id >> put_int h r.last_order

unfoldable pub unmarshal : Host → Reader CustomerRecord
unmarshal h = do
  customer_id ← get_int h
  last_order ← get_int h
  pure (record { customer_id = customer_id; last_order = last_order })

unfoldable pub is_valid : CustomerRecord → Bool
is_valid r = not (eqb_ℤ r.customer_id minus_one)

-- The bytes on the wire.
unfoldable pub encode : CustomerRecord → List ℕ
encode r = ints_bytes (r.customer_id ∷ r.last_order ∷ [])

-- Each field is a value of the C++ type.
pub record IsWire (r : CustomerRecord) : Type 0 where
  pub customer_id : IsInt r.customer_id
  pub last_order : IsInt r.last_order

pub length-encode : (r : CustomerRecord) → length (encode r) ≡ size
unfolding encode size
length-encode r = omega (arith, length-ints_bytes (r.customer_id ∷ r.last_order ∷ []))

module _ (h : Host) (laws : IsHost h) where
  pub marshal-encode : (r : CustomerRecord) → marshal h r ≡ store (encode r)
  unfolding marshal encode ints_bytes
  marshal-encode r = simp (put_int-store h laws, store-store, append-nil)

  pub unmarshal-Reads : (r : CustomerRecord) → IsWire r → Reads (unmarshal h) (encode r) r
  unfolding unmarshal encode ints_bytes
  unmarshal-Reads r w =
      get_int-then h laws _ _ _ _ w.customer_id
        (get_int-then h laws _ _ _ _ w.last_order (Reads-pure r))
