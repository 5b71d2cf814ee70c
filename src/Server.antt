-- ===== src/Server.antt =====
-- hub/images/tunnel-server/src/main.rs: the hub's side of the tunnel.
pub mod Config
pub mod Metrics
pub mod Session
pub mod Handshake
pub mod Http
pub mod Receive
pub mod Stream
pub mod Registry
pub mod Listen
pub mod Connection
pub mod Program
pub mod Ports
