-- ===== src/Ipc.antt =====
-- The protocol between client and daemon (include/yori/ipc/ipc_protocol.hpp,
-- src/ipc/ipc_protocol.cpp).
pub mod Wire
pub mod Payload
pub mod Exit
pub mod Stream
pub mod Kind
pub mod Map
pub mod Submit
pub mod Request
pub mod Listing
pub mod Device
pub mod Inspect
pub mod Response
pub mod Names
