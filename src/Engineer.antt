-- ===== src/Engineer.antt =====
-- EngineerThread of src/ServerThread.cpp on a connection of identity 0 (a customer) or 1 (a peer
-- that backs up its log), with what the LaptopFactory keeps for them.
pub mod Records
pub mod Backup
pub mod Servers
pub mod Queue
use cs.Base.{
  ℕ, suc, ◌+◌, ◌≡◌, Bool, true, false, Option, none, some, List, [], ◌∷◌, ◌++◌, if◌then◌else◌,
  get_elem?,
}
use cs.Base.Int.{ℤ, pos, negsuc, minus_one, eqb_ℤ}
use cs.Map
use cs.Map.{Map}
use cs.Messages.CustomerRecord
use cs.Messages.CustomerRecord.{CustomerRecord}
use cs.Messages.CustomerRequest
use cs.Messages.CustomerRequest.{CustomerRequest}
use cs.Messages.LaptopInfo
use cs.Messages.LaptopInfo.{LaptopInfo}
use cs.Messages.LogRequest
use cs.Messages.LogRequest.{LogRequest}
use cs.Messages.LogResponse
use cs.Messages.LogResponse.{LogResponse}
use cs.Messages.MapOp.{MapOp}
use cs.Messages.ServerConfig
use cs.Messages.ServerConfig.{ServerConfig}
use cs.Messages.ServerInfo
use cs.Scout.{Net, Scout, ServerAddress}
use cs.Scout.Broadcast.{broadcast, answer}

-- The LaptopFactory as the engineers see it: the variables it shares with the scout, and its own.
pub record Factory : Type 0 where
  pub scout : Scout
  pub committed_index : ℤ
  pub server_config : ServerConfig

-- What CreateRegularLaptop pushes to the queue.
unfoldable pub new_laptop : CustomerRequest → ℤ → LaptopInfo
unfolding LaptopInfo.new LaptopInfo.copy_order LaptopInfo.set_engineer_id LaptopInfo.set_admin_id
new_laptop order engineer_id =
    LaptopInfo.set_admin_id
      (LaptopInfo.set_engineer_id (LaptopInfo.copy_order LaptopInfo.new order) engineer_id)
      minus_one

abbrev pub record_of : ℤ → Option ℤ → CustomerRecord
record_of id (some last_order) = CustomerRecord.set_customer_record CustomerRecord.new id last_order
record_of id none = CustomerRecord.set_customer_record CustomerRecord.new minus_one minus_one

unfoldable pub create_customer_record : CustomerRequest → Map ℤ → CustomerRecord
unfolding CustomerRecord.new CustomerRecord.set_customer_record Map.find
create_customer_record request customer_record =
    record_of request.customer_id (Map.find request.customer_id customer_record)

unfoldable pub create_log_request : MapOp → Factory → LogRequest
unfolding LogRequest.new LogRequest.set_factory_id LogRequest.set_last_index
    LogRequest.set_committed_index LogRequest.set_map_op
create_log_request op f =
    LogRequest.set_map_op
      (LogRequest.set_committed_index
        (LogRequest.set_last_index (LogRequest.set_factory_id LogRequest.new f.scout.factory_id)
          f.scout.last_index)
        f.committed_index)
      op

-- customer_record[op.GetArg1()] = op.GetArg2(), or undefined past the end of the log.
abbrev pub apply_op : Option MapOp → Scout → Option Scout
apply_op none s = none
apply_op (some op) s =
    some (record s { customer_record = Map.assign op.arg1 op.arg2 s.customer_record })

-- The committed entry, if the index is not negative.
unfoldable pub commit_index : ℤ → Scout → Option Scout
unfolding Map.assign
commit_index (pos i) s = apply_op (get_elem? s.smr_log i) s
commit_index (negsuc i) s = some s

abbrev pub with_scout : Factory → Option Scout → Option Factory
with_scout f none = none
with_scout f (some s) = some (record f { scout = s })

-- A valid log request: `none` where the code reads past the end of smr_log.
unfoldable pub on_log_request : LogRequest → Factory → Option Factory
unfolding commit_index
on_log_request r f =
    with_scout (record f { committed_index = r.committed_index })
      (commit_index r.committed_index
        (record f.scout { smr_log = f.scout.smr_log ++ r.op ∷ []; last_index = r.last_index }))

unfoldable pub log_response : Factory → LogResponse
unfolding LogResponse.new LogResponse.set_factory_id
log_response f = LogResponse.set_factory_id LogResponse.new f.scout.factory_id

abbrev pub responded :
    LogResponse → Option (Factory × List LogResponse) → Option (Factory × List LogResponse)
responded r none = none
responded r (some (f, rs)) = some (f, r ∷ rs)

abbrev pub then_log :
    Option Factory
    → (Factory → Option (Factory × List LogResponse))
    → Option (Factory × List LogResponse)
then_log none next = none
then_log (some f) next = responded (log_response f) (next f)

-- The loop of identity 1, until a request is not valid.
unfoldable pub serve_backup : List LogRequest → Factory → Option (Factory × List LogResponse)
unfolding on_log_request log_response LogRequest.is_valid
serve_backup [] f = some (f, [])
serve_backup (r ∷ rs) f =
    let rest = then_log (on_log_request r f) (serve_backup rs) in
    if LogRequest.is_valid r then rest else some (f, [])

-- What goes back to a customer.
pub data Reply : Type 0 where
  laptop : LaptopInfo → Reply
  customer : CustomerRecord → Reply

module _ {W : Type 0} (net : Net W) (jumps rounds : ℕ) (junk : ℤ) where
  -- An order alone in the queue: the engineer waits for the answer of the scout.
  unfoldable pub create_regular_laptop :
      CustomerRequest → ℤ → Scout → W → Option (LaptopInfo × Scout × W)
  unfolding new_laptop broadcast answer
  create_regular_laptop order engineer_id s w =
      let l = new_laptop order engineer_id in
      answer net s.factory_id l (broadcast net jumps rounds junk l s w)

  abbrev pub laptop_made : Option (LaptopInfo × Scout × W) → Option (Option Reply × Scout × W)
  laptop_made none = none
  laptop_made (some (l, s, w)) = some (some (laptop l), s, w)

  -- A valid request: type 1 is an order, type 2 a read, and another type has no reply. `none` while
  -- the broadcast goes on.
  unfoldable pub on_request : ℤ → CustomerRequest → Scout → W → Option (Option Reply × Scout × W)
  unfolding create_regular_laptop create_customer_record
  on_request engineer_id r s w =
      let made = laptop_made (create_regular_laptop r engineer_id s w) in
      if eqb_ℤ r.request_type (pos 1)
      then made
      else if eqb_ℤ r.request_type (pos 2)
      then some (some (customer (create_customer_record r s.customer_record)), s, w)
      else some (none, s, w)

  abbrev pub replied :
      Option Reply → Option (List Reply × Scout × W) → Option (List Reply × Scout × W)
  replied r none = none
  replied none (some (rs, s, w)) = some (rs, s, w)
  replied (some r) (some (rs, s, w)) = some (r ∷ rs, s, w)

  abbrev pub then_serve :
      Option (Option Reply × Scout × W)
      → (Scout → W → Option (List Reply × Scout × W))
      → Option (List Reply × Scout × W)
  then_serve none next = none
  then_serve (some (r, s, w)) next = replied r (next s w)

  -- The loop of identity 0, until a request is not valid.
  unfoldable pub serve_customer :
      ℤ → List CustomerRequest → Scout → W → Option (List Reply × Scout × W)
  unfolding on_request CustomerRequest.is_valid
  serve_customer engineer_id [] s w = some ([], s, w)
  serve_customer engineer_id (r ∷ rs) s w =
      let rest = then_serve (on_request engineer_id r s w) (serve_customer engineer_id rs) in
      if CustomerRequest.is_valid r then rest else some ([], s, w)

-- AddAcceptor
unfoldable pub add_acceptor : ℤ → List ℕ → ℤ → Factory → Factory
unfolding Map.assign ServerConfig.set_server ServerInfo.new
add_acceptor id ip port f = record f {
  scout = record f.scout {
    acceptors = Map.assign id (record { ip = ip; port = port }) f.scout.acceptors;
    acceptor_count = f.scout.acceptor_count + 1;
  };
  server_config = ServerConfig.set_server f.server_config id (ServerInfo.new ip port);
}
