-- ===== src/Ucicfg.antt =====
-- The configuration (internal/ucicfg): what a loaded file holds, and its text form.
pub mod Data
pub mod Value
pub mod Names
pub mod Store
pub mod Token
pub mod Syntax
pub mod Print
pub mod Text
