-- ===== src/Model.antt =====
-- The data types shared across the daemon (internal/model), a module for each part of them.
pub mod Int
pub mod Log
pub mod Mode
pub mod Strategy
pub mod Profile
pub mod Settings
pub mod Subscription
pub mod Rule
