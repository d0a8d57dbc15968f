-- ===== src/Customer/Scan.antt =====
-- A scan of the records, against a server that answers from one map.
use cs.Base.{ℕ, zero, suc, ◌≡◌, refl, Option, none, some, List, [], ◌∷◌, if◌then◌else◌, arith}
use cs.Base.Int.{ℤ, pos, pos_part, minus_one}
use cs.Customer.{Shop, Customer, scan_from, scan_records}
use cs.Engineer.{create_customer_record, record_of}
use cs.Map
use cs.Map.{Map, find}
use cs.Messages.CustomerRecord
use cs.Messages.CustomerRecord.{CustomerRecord}
use cs.Messages.CustomerRequest
use cs.Messages.CustomerRequest.{CustomerRequest}

-- Every read is answered by CreateCustomerRecord from the map `m`.
pub record IsReader {W : Type 0} (shop : Shop W) (m : Map ℤ) : Type 0 where
  pub reads : (r : CustomerRequest) (w : W) → (shop.read_record r w).0 ≡ create_customer_record r m

abbrev pub row_of : ℕ → Option ℤ → List CustomerRecord → List CustomerRecord
row_of i none rows = rows
row_of i (some order) rows = record { customer_id = pos i; last_order = order } ∷ rows

-- The records of the map for `n` customers from `i` on.
unfoldable pub rows_from : ℕ → ℕ → Map ℤ → List CustomerRecord
unfolding Map.find
rows_from zero i m = []
rows_from (suc n) i m = row_of i (find (pos i) m) (rows_from n (suc i) m)

abbrev kept : CustomerRecord → List CustomerRecord → List CustomerRecord
kept r rows = if CustomerRecord.is_valid r then r ∷ rows else rows

kept-record_of :
    (i : ℕ) (found : Option ℤ) (rows : List CustomerRecord)
    → kept (record_of (pos i) found) rows ≡ row_of i found rows
unfolding CustomerRecord.is_valid CustomerRecord.new CustomerRecord.set_customer_record
kept-record_of i none rows = refl
kept-record_of i (some order) rows = ground arith

kept-read :
    (i : ℕ) (m : Map ℤ) (rows : List CustomerRecord)
    → kept
        (create_customer_record
          (CustomerRequest.set_order CustomerRequest.new (pos i) minus_one (pos 2))
          m)
        rows
      ≡ row_of i (find (pos i) m) rows
unfolding create_customer_record CustomerRequest.set_order
kept-read i m rows = kept-record_of i (find (pos i) m) rows

module _ {W : Type 0} (shop : Shop W) (m : Map ℤ) (reader : IsReader shop m) where
  scan_from-rows : (n i : ℕ) (w : W) → (scan_from shop n i w).0 ≡ rows_from n i m
  unfolding scan_from rows_from
  scan_from-rows zero i w = refl
  scan_from-rows (suc n) i w =
      let request = CustomerRequest.set_order CustomerRequest.new (pos i) minus_one (pos 2) in
      let w' = (shop.read_record request w).1 in
      rw (reader.reads request w, scan_from-rows n (suc i) w')
        (kept-read i m (rows_from n (suc i) m))

  -- ScanRecords prints the last order of exactly the customers below num_orders that have one, in
  -- the order of their ids.
  pub scan_records-rows :
      (c : Customer) (w : W) → (scan_records shop c w).0 ≡ rows_from (pos_part c.num_orders) 0 m
  unfolding scan_records
  scan_records-rows c w = scan_from-rows (pos_part c.num_orders) 0 w
