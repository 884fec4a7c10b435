-- ===== src/Tests.antt =====
-- The theorems at concrete inputs.
mod Engine
mod Failures
mod Relay
mod Tunnel
mod Store
mod Ssh
mod Api
mod Client
mod Refinement
mod Wiring
mod Manager
mod Accepting
mod Vault
mod Server
mod Restart
mod Contract
mod Daemon
