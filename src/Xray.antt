-- ===== src/Xray.antt =====
-- The configuration that the core is started with (internal/xray), a module for each part of it.
pub mod Config
pub mod Words
pub mod Result
pub mod Stream
pub mod Outbounds
pub mod KeepAlive
pub mod Rules
pub mod Inbounds
pub mod Parts
pub mod Build
pub mod Routing
