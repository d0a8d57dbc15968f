-- ===== src/Messages/LaptopInfo.antt =====
-- class LaptopInfo (src/Messages.h, src/Messages.cpp).
use cs.Base.{length, ℕ, ◌+◌, append-nil, ◌≡◌, Bool, ◌∷◌, [], List, arith, not}
use cs.Base.Int.{ℤ, minus_one, eqb_ℤ}
use cs.Base.Word.{IsInt}
use cs.Messages.CustomerRequest.{CustomerRequest}
use cs.Wire.{Host, IsHost, Writer, store, ◌>>◌, put_int, Reader, pure, ◌>>=◌, get_int, ints_bytes}
use cs.Wire.Laws.{Reads, Reads-pure, get_int-then, put_int-store, store-store, length-ints_bytes}

pub record LaptopInfo : Type 0 where
  pub customer_id : ℤ
  pub order_number : ℤ
  pub request_type : ℤ
  pub engineer_id : ℤ
  pub admin_id : ℤ

unfoldable pub new : LaptopInfo
new = record {
  customer_id = minus_one;
  order_number = minus_one;
  request_type = minus_one;
  engineer_id = minus_one;
  admin_id = minus_one;
}

unfoldable pub set_info : LaptopInfo → ℤ → ℤ → ℤ → ℤ → ℤ → LaptopInfo
set_info r id number type engid expid = record r {
  customer_id = id;
  order_number = number;
  request_type = type;
  engineer_id = engid;
  admin_id = expid;
}

unfoldable pub copy_order : LaptopInfo → CustomerRequest → LaptopInfo
copy_order r order = record r {
  customer_id = order.customer_id;
  order_number = order.order_number;
  request_type = order.request_type;
}

unfoldable pub set_engineer_id : LaptopInfo → ℤ → LaptopInfo
set_engineer_id r id = record r { engineer_id = id }

unfoldable pub set_admin_id : LaptopInfo → ℤ → LaptopInfo
set_admin_id r id = record r { admin_id = id }

unfoldable pub size : ℕ
size = 4 + 4 + 4 + 4 + 4

unfoldable pub marshal : Host → LaptopInfo → Writer
marshal h r =
    put_int h r.customer_id
    >> put_int h r.order_number
    >> put_int h r.request_type
    >> put_int h r.engineer_id
    >> put_int h r.admin_id

unfoldable pub unmarshal : Host → Reader LaptopInfo
unmarshal h = do
  customer_id ← get_int h
  order_number ← get_int h
  request_type ← get_int h
  engineer_id ← get_int h
  admin_id ← get_int h
  pure (record {
    customer_id = customer_id;
    order_number = order_number;
    request_type = request_type;
    engineer_id = engineer_id;
    admin_id = admin_id;
  })

unfoldable pub is_valid : LaptopInfo → Bool
is_valid r = not (eqb_ℤ r.customer_id minus_one)

-- The bytes on the wire.
unfoldable pub encode : LaptopInfo → List ℕ
encode r =
    ints_bytes (r.customer_id ∷ r.order_number ∷ r.request_type ∷ r.engineer_id ∷ r.admin_id ∷ [])

-- Each field is a value of the C++ type.
pub record IsWire (r : LaptopInfo) : Type 0 where
  pub customer_id : IsInt r.customer_id
  pub order_number : IsInt r.order_number
  pub request_type : IsInt r.request_type
  pub engineer_id : IsInt r.engineer_id
  pub admin_id : IsInt r.admin_id

pub length-encode : (r : LaptopInfo) → length (encode r) ≡ size
unfolding encode size
length-encode r = omega (
  arith,
  length-ints_bytes
      (r.customer_id ∷ r.order_number ∷ r.request_type ∷ r.engineer_id ∷ r.admin_id ∷ []),
)

module _ (h : Host) (laws : IsHost h) where
  pub marshal-encode : (r : LaptopInfo) → marshal h r ≡ store (encode r)
  unfolding marshal encode ints_bytes
  marshal-encode r = simp (put_int-store h laws, store-store, append-nil)

  pub unmarshal-Reads : (r : LaptopInfo) → IsWire r → Reads (unmarshal h) (encode r) r
  unfolding unmarshal encode ints_bytes
  unmarshal-Reads r w = get_int-then h laws _ _ _ _ w.customer_id (
      get_int-then h laws _ _ _ _ w.order_number (
        get_int-then h laws _ _ _ _ w.request_type (
          get_int-then h laws _ _ _ _ w.engineer_id
            (get_int-then h laws _ _ _ _ w.admin_id (Reads-pure r)))))
