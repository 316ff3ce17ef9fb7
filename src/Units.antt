-- ===== src/Units.antt =====
-- Values with units: frontend/public/components/utils/units.js.
pub mod Numbers
pub mod Convert
pub mod Validate
pub mod Laws
mod Tests
