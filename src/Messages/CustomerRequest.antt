-- ===== src/Messages/CustomerRequest.antt =====
-- class CustomerRequest (src/Messages.h, src/Messages.cpp).
use cs.Base.{length, ℕ, ◌+◌, append-nil, ◌≡◌, Bool, ◌∷◌, [], List, arith, not}
use cs.Base.Int.{ℤ, minus_one, eqb_ℤ}
use cs.Base.Word.{IsInt}
use cs.Wire.{Host, IsHost, Writer, store, ◌>>◌, put_int, Reader, pure, ◌>>=◌, get_int, ints_bytes}
use cs.Wire.Laws.{Reads, Reads-pure, get_int-then, put_int-store, store-store, length-ints_bytes}

pub record CustomerRequest : Type 0 where
  pub customer_id : ℤ
  pub order_number : ℤ
  pub request_type : ℤ

unfoldable pub new : CustomerRequest
new = record { customer_id = minus_one; order_number = minus_one; request_type = minus_one }

unfoldable pub set_order : CustomerRequest → ℤ → ℤ → ℤ → CustomerRequest
set_order r id number type = record r {
  customer_id = id;
  order_number = number;
  request_type = type;
}

unfoldable pub size : ℕ
size = 4 + 4 + 4

unfoldable pub marshal : Host → CustomerRequest → Writer
marshal h r = put_int h r.customer_id >> put_int h r.order_number >> put_int h r.request_type

unfoldable pub unmarshal : Host → Reader CustomerRequest
unmarshal h = do
  customer_id ← get_int h
  order_number ← get_int h
  request_type ← get_int h
  pure (record {
    customer_id = customer_id;
    order_number = order_number;
    request_type = request_type;
  })

unfoldable pub is_valid : CustomerRequest → Bool
is_valid r = not (eqb_ℤ r.customer_id minus_one)

-- The bytes on the wire.
unfoldable pub encode : CustomerRequest → List ℕ
encode r = ints_bytes (r.customer_id ∷ r.order_number ∷ r.request_type ∷ [])

-- Each field is a value of the C++ type.
pub record IsWire (r : CustomerRequest) : Type 0 where
  pub customer_id : IsInt r.customer_id
  pub order_number : IsInt r.order_number
  pub request_type : IsInt r.request_type

pub length-encode : (r : CustomerRequest) → length (encode r) ≡ size
unfolding encode size
length-encode r =
    omega (arith, length-ints_bytes (r.customer_id ∷ r.order_number ∷ r.request_type ∷ []))

module _ (h : Host) (laws : IsHost h) where
  pub marshal-encode : (r : CustomerRequest) → marshal h r ≡ store (encode r)
  unfolding marshal encode ints_bytes
  marshal-encode r = simp (put_int-store h laws, store-store, append-nil)

  pub unmarshal-Reads : (r : CustomerRequest) → IsWire r → Reads (unmarshal h) (encode r) r
  unfolding unmarshal encode ints_bytes
  unmarshal-Reads r w = get_int-then h laws _ _ _ _ w.customer_id (
      get_int-then h laws _ _ _ _ w.order_number
        (get_int-then h laws _ _ _ _ w.request_type (Reads-pure r)))
