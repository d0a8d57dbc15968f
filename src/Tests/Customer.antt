-- ===== src/Tests/Customer.antt =====
-- Runs of a customer (src/ClientThread.cpp).
use cs.Base.{◌≡◌, refl, true, [], ◌∷◌, if◌then◌else◌}
use cs.Base.Int.{ℤ, pos, pos_part, eqb_ℤ}
use cs.Customer.{Shop, Customer, all_sent, orders, scan_records}
use cs.Customer.Orders.{Course, orders-Course}
use cs.Customer.Scan.{IsReader, rows_from, scan_records-rows}
use cs.Engineer.{create_customer_record}
use cs.Map.{Map}
use cs.Messages.CustomerRequest.{CustomerRequest}
use cs.Messages.LaptopInfo
use cs.Messages.LaptopInfo.{LaptopInfo}
use cs.Messages.ServerConfig.{ServerConfig}

abbrev stored : Map ℤ
stored = (pos 0, pos 4) ∷ (pos 2, pos 9) ∷ []

abbrev one_server : ServerConfig
one_server = record {
  servers = (pos 1, record { ip_address = 49 ∷ []; port_number = pos 9000 }) ∷ [];
}

abbrev made : CustomerRequest → LaptopInfo
made r = record {
  customer_id = r.customer_id;
  order_number = r.order_number;
  request_type = r.request_type;
  engineer_id = pos 0;
  admin_id = pos 1;
}

-- The connection is lost at order 1, and the server is back at once.
abbrev flaky : Shop (Unit {0})
flaky = record {
  init = λ ip port w. (true, w);
  identify = λ role w. w;
  receive_server_config = λ w. (one_server, w);
  order = λ r w. ((if eqb_ℤ r.order_number (pos 1) then LaptopInfo.new else made r), w);
  read_record = λ r w. (create_customer_record r stored, w);
}

abbrev visitor : Customer
visitor = record {
  customer_id = pos 7;
  num_orders = pos 3;
  request_type = pos 1;
  server_config = one_server;
}

abbrev numbered : ℤ → CustomerRequest
numbered i = record { customer_id = pos 7; order_number = i; request_type = pos 1 }

-- The order whose answer was lost is not sent again.
lost_order : orders flaky visitor tt ≡ (
  all_sent,
  (numbered (pos 0), made (numbered (pos 0)))
      ∷ (numbered (pos 1), LaptopInfo.new)
      ∷ (numbered (pos 2), made (numbered (pos 2)))
      ∷ [],
  visitor,
  tt,
)
unfolding orders LaptopInfo.new
lost_order = refl

orders-Course_example :
    let (ending, trace, c, w) = orders flaky visitor tt in Course (pos 7) (pos 1) 0 3 ending trace
orders-Course_example = orders-Course flaky visitor tt

flaky-IsReader : IsReader flaky stored
flaky-IsReader = record { reads = λ r w. refl }

scan_records-rows_example :
    (scan_records flaky visitor tt).0 ≡ rows_from (pos_part (pos 3)) 0 stored
scan_records-rows_example = scan_records-rows flaky stored flaky-IsReader visitor tt
