-- ===== src/Lib.antt =====
-- Verification of the replicated laptop factory: a server that takes orders from customers and
-- agrees on them with its peers by a Multi-Paxos protocol over TCP.
--
-- The program. A customer connects to a server, gets the map of all servers, and sends orders. The
-- server hands each order to its scout, which asks all acceptors for a promise (p1a, p1b), proposes
-- a command for a slot (p2a, p2b), and has its commander tell all learners. Every server is
-- proposer, acceptor and learner. All messages are fixed rows of bytes over blocking sockets.
--
-- The parts:
--   * Base: integers, 32-bit words, tests and lists over the native numbers.
--   * Map: std::map<int, V> as the list of its entries in the order of the keys.
--   * Wire: a memcpy into or out of a buffer, one after the other, with htonl and ntohl. `Host` is
--     the byte order of a machine; what the code relies on is `IsHost`. Wire.Hosts has both kinds.
--   * Messages: the classes of src/Messages.h and src/Messages.cpp, a module for each class, with
--     `new` for the default constructor, `marshal`, `unmarshal`, `size`, `is_valid` and the
--     setters. A getter is a field. `encode` is an independent description of the bytes.
--   * Socket: Socket::Send, Socket::Recv and Socket::Close (src/Socket.cpp). What send(2) and
--     recv(2) answer is a script that the connection carries; any script is allowed. Socket.Setup has
--     src/ServerSocket.cpp and src/ClientSocket.cpp with the system calls that they make.
--   * Stubs: src/ServerStub.cpp in Stubs.Server and src/ClientStub.cpp in Stubs.Client. A local
--     array is an argument with what the memory held; a write or read past its end is `fault`.
--   * Acceptor: EngineerThread with identity 2 (src/ServerThread.cpp): promisedProposalNumber,
--     acceptedProposalNumber and acceptedValue; `on_prepare`, `on_accept`, and the loop `serve`.
--   * Learner: LaptopFactory::Learn and EngineerThread with identity 3 (src/ServerThread.cpp):
--     decisionMap, slot_out, and the lines handed to saveCommandToFile.
--   * Scout: ScoutBrocasting (Scout.Broadcast), its prepare phase, AcceptPhaseBrocasting and
--     CommanderBrocasting (Scout.Phases), all of src/ServerThread.cpp. The other servers, the
--     clock and the map that other threads change are the interface `Net`.
--   * Engineer: EngineerThread with identities 0 and 1, CreateRegularLaptop, CreateCustomerRecord
--     and AddAcceptor (src/ServerThread.cpp). Engineer.Queue has the queue to ScoutThread, where
--     engineers, the scout and the outside world take steps in any order.
--   * Agreement: acceptors and any number of prepare rounds for one decision, as steps in any order.
--     A step is one message handled by the code of Acceptor, or a proposal by the count and the rule
--     of Scout, made by a server that has no decision yet for the slot of a command proposed before.
--     A round counts its own answers only, which the code does in its first round after the label.
--   * Cluster: the interface `Net` filled by the acceptors and learners of all servers, with no
--     message lost. An acceptor answers at once, as the scout waits for it; a learn message waits at
--     its learner until `settle`, since the commander waits for nothing. Cluster.Rounds and
--     Cluster.Alike have one message to all of them, Cluster.Answers and Cluster.Phases the prepare
--     phase, Cluster.Proposing the accept phase and the learn messages, Cluster.Ready and
--     Cluster.Orders one order, Cluster.Log a queue of them whose learners keep up, and
--     Cluster.Repeats an order that is taken before they have.
--   * Utilities: saveMapToFile, loadMapFromFile, saveCommandToFile and generateCommandID
--     (src/Utilities.cpp). A file is the list of its characters, and the formatted streams of the
--     standard library are spelt out (Utilities.Decimal has the integers).
--   * Customer: ClientThreadClass (src/ClientThread.cpp). The functions of ClientStub that it calls
--     are the interface `Shop`.
--   * Timer: ClientTimer (src/ClientTimer.cpp) and its use in src/ClientMain.cpp. The clock and the
--     floating-point durations are the interface `Durations`; the code relies on their order,
--     `IsOrdered`.
--   * Programs: main of src/ServerMain.cpp and src/ClientMain.cpp with the threads that they start.
--     An access to an argument can overflow in atoi or lie past the end, as a value of `Access`.
--
-- Integers. An `int` is an integer with `IsInt` where its range matters, and slot_out++ wraps as
-- two's complement does; counters that stay below the number of servers are natural numbers.
--
-- Fuel. The loop of Learn and the search for a free slot have one more round than the map has slots,
-- since each round passes a slot of the map; the loop of loadMapFromFile has one more than the file
-- has characters, since an entry takes at least one. The rounds of the prepare phase and the jumps
-- back to start_proposalNum_compete have no bound in the code: `prepare` and `compete` take one, and
-- say `running` or `waiting` when it is used up. Cluster takes two rounds or more and one jump
-- or more: where no message is lost, a refusal names the number to go above.
--
-- Not modelled: what the system calls do, the creation of threads, and console output. Of the
-- threads the queue is shown interleaved, and the learners run late (Cluster); each connection is a
-- row of messages, handled one at a time. What other threads do while ScoutThread waits for an order
-- is the argument `meanwhile` of `serve_queue`.
pub mod Base
pub mod Wire
pub mod Messages
pub mod Map
pub mod Socket
pub mod Stubs
pub mod Acceptor
pub mod Learner
pub mod Scout
pub mod Engineer
pub mod Timer
pub mod Utilities
pub mod Customer
pub mod Programs
pub mod Agreement
pub mod Cluster
mod Tests
