-- ===== src/Rpc.antt =====
-- rpc/: the calls between clients and servers.
pub mod Server
pub mod Functions
pub mod Client
pub mod RemoteCall
pub mod Publish
mod Examples
