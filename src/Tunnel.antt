-- ===== src/Tunnel.antt =====
-- internal/tunnel: the tunnel between a client and a server.
pub mod Protocol
pub mod Session
pub mod Client
pub mod Server
