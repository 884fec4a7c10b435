-- ===== src/Ssh.antt =====
-- internal/ssh: remote rules over SSH.
pub mod Credentials
pub mod Client
pub mod Auth
pub mod Manager
