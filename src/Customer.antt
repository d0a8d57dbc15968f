-- ===== src/Customer.antt =====
-- class ClientThreadClass (src/ClientThread.h, src/ClientThread.cpp): one customer. The timer around
-- each call of the stub is left out.
pub mod Orders
pub mod Scan
use cs.Base.{ℕ, zero, suc, ◌≡◌, Bool, true, false, Option, none, some, List, [], ◌∷◌, if◌then◌else◌}
use cs.Base.Int.{ℤ, pos, negsuc, minus_one, pos_part, eqb_ℤ}
use cs.Map.{Map}
use cs.Messages.CustomerRecord
use cs.Messages.CustomerRecord.{CustomerRecord}
use cs.Messages.CustomerRequest
use cs.Messages.CustomerRequest.{CustomerRequest}
use cs.Messages.LaptopInfo
use cs.Messages.LaptopInfo.{LaptopInfo}
use cs.Messages.ServerConfig
use cs.Messages.ServerConfig.{ServerConfig}
use cs.Messages.ServerInfo.{ServerInfo}

-- The functions of ClientStub that a customer calls, over a world `W` that holds the connection.
pub record Shop (W : Type 0) : Type 0 where
  pub init : List ℕ → ℤ → W → Bool × W
  pub identify : ℤ → W → W
  pub receive_server_config : W → ServerConfig × W
  pub order : CustomerRequest → W → LaptopInfo × W
  pub read_record : CustomerRequest → W → CustomerRecord × W

pub record Customer : Type 0 where
  pub customer_id : ℤ
  pub num_orders : ℤ
  pub request_type : ℤ
  pub server_config : ServerConfig

-- How Orders ends: after the last order, because there are too few acceptors, or because no server
-- can be reached.
pub data Ending : Type 0 where
  all_sent not_working all_lost : Ending

-- The orders that were sent, each with the laptop that Order returned.
abbrev pub Trace : Type 0
Trace = List (CustomerRequest × LaptopInfo)

abbrev pub sent_first :
    {W : Type 0}
    → CustomerRequest
    → LaptopInfo
    → Ending × Trace × Customer × W
    → Ending × Trace × Customer × W
sent_first request laptop (ending, trace, c, w) = (ending, (request, laptop) ∷ trace, c, w)

unfoldable pub request_at : Customer → ℕ → CustomerRequest
unfolding CustomerRequest.new CustomerRequest.set_order
request_at c i = CustomerRequest.set_order CustomerRequest.new c.customer_id (pos i) c.request_type

module _ {W : Type 0} (shop : Shop W) where
  abbrev pub greeted : W → ServerConfig × W
  greeted w = shop.receive_server_config (shop.identify (pos 0) w)

  abbrev pub else_try : Bool × W → (W → Option ServerConfig × W) → Option ServerConfig × W
  else_try (true, w) next = let (config, w') = greeted w in (some config, w')
  else_try (false, w) next = next w

  -- The first server of the map that can be reached sends the map that is used from now on.
  unfoldable pub reconnect : Map ServerInfo → W → Option ServerConfig × W
  reconnect [] w = (none, w)
  reconnect ((id, info) ∷ servers) w =
      else_try (shop.init info.ip_address info.port_number w) (reconnect servers)

  abbrev pub reconnected :
      Option ServerConfig × W
      → Customer
      → (Customer → W → Ending × Trace × Customer × W)
      → Ending × Trace × Customer × W
  reconnected (none, w) c next = (all_lost, [], c, w)
  reconnected (some config, w) c next = next (record c { server_config = config }) w

  -- What follows the answer to an order.
  abbrev pub after_answer :
      LaptopInfo × W
      → Customer
      → (Customer → W → Ending × Trace × Customer × W)
      → Ending × Trace × Customer × W
  after_answer (laptop, w) c next =
      if eqb_ℤ laptop.admin_id (negsuc 4)
      then (not_working, [], c, w)
      else if LaptopInfo.is_valid laptop
      then next c w
      else reconnected (reconnect c.server_config.servers w) c next

  -- The loop of Orders: `n` orders are left, the next one has the number `i`.
  unfoldable pub orders_from : ℕ → ℕ → Customer → W → Ending × Trace × Customer × W
  unfolding request_at reconnect LaptopInfo.is_valid
  orders_from zero i c w = (all_sent, [], c, w)
  orders_from (suc n) i c w =
      let request = request_at c i in
      let answer = shop.order request w in
      sent_first request (answer.0) (after_answer answer c (orders_from n (suc i)))

  -- Orders
  unfoldable pub orders : Customer → W → Ending × Trace × Customer × W
  unfolding orders_from
  orders c w = orders_from (pos_part c.num_orders) 0 c w

  -- Records
  unfoldable pub records : Customer → W → CustomerRecord × W
  unfolding CustomerRequest.new CustomerRequest.set_order
  records c w =
      shop.read_record
        (CustomerRequest.set_order CustomerRequest.new c.customer_id minus_one (pos 2)) w

  abbrev pub shown : CustomerRecord → List CustomerRecord × W → List CustomerRecord × W
  shown r (rs, w) = ((if CustomerRecord.is_valid r then r ∷ rs else rs), w)

  -- The loop of ScanRecords: the records that it prints.
  unfoldable pub scan_from : ℕ → ℕ → W → List CustomerRecord × W
  unfolding CustomerRequest.new CustomerRequest.set_order CustomerRecord.is_valid
  scan_from zero i w = ([], w)
  scan_from (suc n) i w =
      let request = CustomerRequest.set_order CustomerRequest.new (pos i) minus_one (pos 2) in
      let (r, w') = shop.read_record request w in shown r (scan_from n (suc i) w')

  -- ScanRecords
  unfoldable pub scan_records : Customer → W → List CustomerRecord × W
  unfolding scan_from
  scan_records c w = scan_from (pos_part c.num_orders) 0 w

  -- What a customer thread has done.
  pub data Visit : Type 0 where
    no_connection : W → Visit
    ordered : Ending → Trace → Customer → W → Visit
    looked_up : CustomerRecord → Customer → W → Visit
    scanned : List CustomerRecord → Customer → W → Visit
    nothing : Customer → W → Visit

  abbrev as_ordered : Ending × Trace × Customer × W → Visit
  as_ordered (ending, trace, c, w) = ordered ending trace c w

  abbrev dispatch : Customer → W → Visit
  dispatch c w =
      if eqb_ℤ c.request_type (pos 1)
      then as_ordered (orders c w)
      else if eqb_ℤ c.request_type (pos 2)
      then looked_up (records c w).0 c (records c w).1
      else if eqb_ℤ c.request_type (pos 3)
      then scanned (scan_records c w).0 c (scan_records c w).1
      else nothing c w

  abbrev if_connected : ℤ → ℤ → ℤ → Bool × W → Visit
  if_connected id count type (false, w) = no_connection w
  if_connected id count type (true, w) =
      let (config, w') = greeted w in
      dispatch
        (record {
          customer_id = id;
          num_orders = count;
          request_type = type;
          server_config = config;
        })
        w'

  -- ThreadBody
  unfoldable pub thread_body : List ℕ → ℤ → ℤ → ℤ → ℤ → W → Visit
  unfolding orders records scan_records
  thread_body ip port id count type w = if_connected id count type (shop.init ip port w)
