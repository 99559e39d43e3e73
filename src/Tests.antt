-- ===== src/Tests.antt =====
-- The theorems at concrete inputs, on a concrete runtime and a concrete token program.
pub mod Concrete
pub mod Fundlock
pub mod Roles
pub mod Settlement
pub mod Listings
pub mod Lending
pub mod Movements
pub mod Updates
pub mod Histories
pub mod Lent
pub mod Positions
pub mod Payout
