-- ===== src/Licensing.antt =====
-- contexts/licensing: the shape of a license key, its validation, and the rules for add-ons.
pub mod Payload
pub mod Key
pub mod Validator
mod Tests
