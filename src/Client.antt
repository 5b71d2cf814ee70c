-- ===== src/Client.antt =====
-- spoke/images/tunnel-client/src/main.rs: the spoke's side of the tunnel.
pub mod Config
pub mod Backoff
pub mod Proxy
pub mod Session
pub mod Pump
pub mod Live
pub mod Endpoint
pub mod Program
