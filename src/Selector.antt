-- ===== src/Selector.antt =====
-- frontend/public/module/k8s/selector-requirement.js and selector.js: label selectors.
pub mod Scan
pub mod Requirement
pub mod Reading
pub mod Evaluate
pub mod Sets
pub mod Spaced
pub mod RoundTrip
pub mod Selectors
pub mod Split
pub mod Labels
pub mod Whole
mod Tests
