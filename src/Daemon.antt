-- ===== src/Daemon.antt =====
-- The daemon (internal/daemon): the connection's life, its log and what watches over it.
pub mod Clock
pub mod PinCheck
pub mod WanWatch
pub mod Ring
pub mod Traffic
pub mod Journal
pub mod LogRing
pub mod Restore
pub mod Engine
