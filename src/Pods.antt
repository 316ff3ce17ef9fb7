-- ===== src/Pods.antt =====
-- Pods: frontend/public/module/k8s/pods.ts.
pub mod Phase
pub mod Phases
pub mod Readiness
pub mod Mounts
pub mod Grouping
mod Tests
