-- ===== src/Messages.antt =====
-- The message classes of src/Messages.h and src/Messages.cpp, a module for each class.
pub mod CustomerRequest
pub mod CustomerRecord
pub mod LaptopInfo
pub mod MapOp
pub mod LogRequest
pub mod LogResponse
pub mod Command
pub mod PaxosMsg
pub mod ServerInfo
pub mod ServerConfig
