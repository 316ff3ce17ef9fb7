-- ===== src/Ui.antt =====
-- The state of the console's frame: frontend/public/ui and the paths it reads.
pub mod Link
pub mod Actions
pub mod Reducer
pub mod Pieces
pub mod Routes
pub mod Namespaces
mod Tests
