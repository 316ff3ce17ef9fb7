-- ===== src/Watch.antt =====
-- The watches of lists and objects: frontend/public/module/k8s/k8s-actions.ts.
pub mod Cell
pub mod Steps
pub mod Valid
pub mod Invariant
pub mod Count
pub mod Silence
pub mod Revival
pub mod Pages
mod Tests
