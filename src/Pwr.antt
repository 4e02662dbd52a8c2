-- ===== src/Pwr.antt =====
-- The patch protocol (pwr/).
pub mod BlockMath
pub mod Bowl
pub mod Patcher
pub mod Safekeeper
pub mod Sign
pub mod RoundTrip
pub mod Overlay
pub mod Wounds
pub mod Validate
pub mod Genie
pub mod Drip
mod Tests
