-- ===== src/Addons.antt =====
-- contexts/addons: the loader, the discovery of a set of add-ons, the circuit breaker, and
-- the store of the authors' trusted keys with its routes.
pub mod Breaker
pub mod Loader
pub mod Trust
mod Tests
mod TrustTests
