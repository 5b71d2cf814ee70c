-- ===== src/Tunnel.antt =====
-- The two programs together: hub/images/tunnel-server/src/main.rs and
-- spoke/images/tunnel-client/src/main.rs.
pub mod StreamIds
pub mod Login
pub mod Sent
pub mod Down
pub mod Up
pub mod Exchange
pub mod HttpProxy
pub mod HalfClose
pub mod System
