-- ===== src/Stubs/Client.antt =====
-- class ClientStub (src/ClientStub.h, src/ClientStub.cpp). `buffer` is the local array of each
-- function, with what the memory held before.
use cs.Base.{ℕ, Bool, true, false, List, replicate}
use cs.Base.Int.{ℤ}
use cs.Messages.CustomerRequest
use cs.Messages.CustomerRequest.{CustomerRequest}
use cs.Messages.CustomerRecord
use cs.Messages.CustomerRecord.{CustomerRecord}
use cs.Messages.LaptopInfo
use cs.Messages.LaptopInfo.{LaptopInfo}
use cs.Messages.LogRequest
use cs.Messages.LogRequest.{LogRequest}
use cs.Messages.LogResponse
use cs.Messages.LogResponse.{LogResponse}
use cs.Messages.PaxosMsg
use cs.Messages.PaxosMsg.{PaxosMsg}
use cs.Messages.ServerConfig
use cs.Messages.ServerConfig.{ServerConfig}
use cs.Socket.{Io, done, ◌>>=◌}
use cs.Stubs.{
  recv_into, int_size, fill, send_buffer, recv_buffer, read, read_or, send_message, receive_message,
}
use cs.Wire.{Host, Writer, Reader, put_int, get_word}

-- Marshal and Send a request; if that works, Recv into the same buffer and Unmarshal the answer.
abbrev pub answer_or : {A : Type 0} → A → Reader A → ℕ → List ℕ → Bool → Io A
answer_or a r size buffer true = recv_buffer size buffer >>= read_or a r
answer_or a r size buffer false = done a

unfoldable pub ask : {A : Type 0} → Writer → ℕ → A → Reader A → ℕ → List ℕ → Io A
unfolding fill send_buffer recv_buffer read
ask w size a r answer_size buffer = do
  sent_from ← fill w buffer
  sent ← send_buffer size sent_from
  answer_or a r answer_size sent_from sent

module _ (h : Host) (buffer : List ℕ) where
  unfoldable pub order : CustomerRequest → Io LaptopInfo
  unfolding ask CustomerRequest.marshal CustomerRequest.size LaptopInfo.new LaptopInfo.unmarshal
      LaptopInfo.size
  order r =
      ask (CustomerRequest.marshal h r) CustomerRequest.size LaptopInfo.new (LaptopInfo.unmarshal h)
        LaptopInfo.size buffer

  unfoldable pub read_record : CustomerRequest → Io CustomerRecord
  unfolding ask CustomerRequest.marshal CustomerRequest.size CustomerRecord.new
      CustomerRecord.unmarshal CustomerRecord.size
  read_record r =
      ask (CustomerRequest.marshal h r) CustomerRequest.size CustomerRecord.new
        (CustomerRecord.unmarshal h) CustomerRecord.size buffer

  unfoldable pub backup_record : LogRequest → Io LogResponse
  unfolding ask LogRequest.marshal LogRequest.size LogResponse.new LogResponse.unmarshal
      LogResponse.size
  backup_record r =
      ask (LogRequest.marshal h r) LogRequest.size LogResponse.new (LogResponse.unmarshal h)
        LogResponse.size buffer

  unfoldable pub identify : ℤ → Io Bool
  unfolding send_message put_int
  identify role = send_message (put_int h role) 4 buffer

  unfoldable pub send_paxos_msg : PaxosMsg → Io Bool
  unfolding send_message PaxosMsg.marshal PaxosMsg.size
  send_paxos_msg m = send_message (PaxosMsg.marshal h m) (PaxosMsg.size m) buffer

  unfoldable pub receive_paxos_msg : Io PaxosMsg
  unfolding receive_message PaxosMsg.new PaxosMsg.unmarshal PaxosMsg.size
  receive_paxos_msg =
      receive_message PaxosMsg.new (PaxosMsg.unmarshal h) (PaxosMsg.size PaxosMsg.new) buffer

  -- A header that does not arrive whole is read as Recv leaves it.
  unfoldable pub receive_server_config : Io ServerConfig
  unfolding get_word recv_into int_size read receive_message ServerConfig.new ServerConfig.unmarshal
  receive_server_config = do
    header ← recv_into 4 buffer
    message_size ← read (get_word h) header
    receive_message ServerConfig.new (ServerConfig.unmarshal h ServerConfig.new)
        (int_size message_size) (replicate message_size 0)
