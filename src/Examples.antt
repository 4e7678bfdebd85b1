-- ===== src/Examples.antt =====
-- Concrete runs: the theorems at inputs on which their hypotheses hold.
pub mod Core
pub mod Clocks
pub mod Updates
pub mod Captures
pub mod Rules
pub mod Stored
pub mod Samples
pub mod Engine
pub mod Pins
pub mod Models
pub mod Rings
pub mod Logs
pub mod Syntax
pub mod Subscriptions
use x_divine_ray.Prelude.{}
