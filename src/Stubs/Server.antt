-- ===== src/Stubs/Server.antt =====
-- class ServerStub (src/ServerStub.h, src/ServerStub.cpp). `buffer` is the local array of each
-- function, with what the memory held before.
use cs.Base.{ℕ, Bool, List, replicate}
use cs.Base.Int.{ℤ, pos, minus_one}
use cs.Messages.CustomerRequest
use cs.Messages.CustomerRequest.{CustomerRequest}
use cs.Messages.CustomerRecord
use cs.Messages.CustomerRecord.{CustomerRecord}
use cs.Messages.LaptopInfo
use cs.Messages.LaptopInfo.{LaptopInfo}
use cs.Messages.LogRequest
use cs.Messages.LogRequest.{LogRequest}
use cs.Messages.LogResponse
use cs.Messages.LogResponse.{LogResponse}
use cs.Messages.PaxosMsg
use cs.Messages.PaxosMsg.{PaxosMsg}
use cs.Messages.ServerConfig
use cs.Messages.ServerConfig.{ServerConfig}
use cs.Socket.{Io, ◌>>=◌}
use cs.Stubs.{int_size, send_message, receive_message}
use cs.Wire.{Host, put_int, get_int}

module _ (h : Host) (buffer : List ℕ) where
  unfoldable pub receive_request : Io CustomerRequest
  unfolding receive_message CustomerRequest.new CustomerRequest.unmarshal CustomerRequest.size
  receive_request =
      receive_message CustomerRequest.new (CustomerRequest.unmarshal h) CustomerRequest.size buffer

  unfoldable pub send_laptop : LaptopInfo → Io Bool
  unfolding send_message LaptopInfo.marshal LaptopInfo.size
  send_laptop info = send_message (LaptopInfo.marshal h info) LaptopInfo.size buffer

  unfoldable pub return_record : CustomerRecord → Io Bool
  unfolding send_message CustomerRecord.marshal CustomerRecord.size
  return_record r = send_message (CustomerRecord.marshal h r) CustomerRecord.size buffer

  unfoldable pub receive_identity : Io ℤ
  unfolding receive_message
  receive_identity = receive_message minus_one (get_int h) 4 buffer

  unfoldable pub receive_log_request : Io LogRequest
  unfolding receive_message LogRequest.new LogRequest.unmarshal LogRequest.size
  receive_log_request =
      receive_message LogRequest.new (LogRequest.unmarshal h) LogRequest.size buffer

  unfoldable pub return_log_response : LogResponse → Io Bool
  unfolding send_message LogResponse.marshal LogResponse.size
  return_log_response r = send_message (LogResponse.marshal h r) LogResponse.size buffer

  -- The size that is asked for is that of the message before it is read.
  unfoldable pub receive_paxos_msg : Io PaxosMsg
  unfolding receive_message PaxosMsg.new PaxosMsg.unmarshal PaxosMsg.size
  receive_paxos_msg =
      receive_message PaxosMsg.new (PaxosMsg.unmarshal h) (PaxosMsg.size PaxosMsg.new) buffer

  unfoldable pub send_paxos_msg : PaxosMsg → Io Bool
  unfolding send_message PaxosMsg.marshal PaxosMsg.size
  send_paxos_msg m = send_message (PaxosMsg.marshal h m) (PaxosMsg.size m) buffer

-- The size in network order, whose answer is dropped, and then the data, from a vector of zeros.
unfoldable pub send_server_config : Host → ServerConfig → Io Bool
unfolding send_message ServerConfig.marshal ServerConfig.size put_int int_size
send_server_config h config = do
  _ ← send_message (put_int h (pos (ServerConfig.size config))) 4 (replicate 4 0)
  send_message (ServerConfig.marshal h config) (int_size (ServerConfig.size config))
      (replicate (ServerConfig.size config) 0)
