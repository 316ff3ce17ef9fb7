-- ===== src/K8s.antt =====
-- The console's access to the cluster: frontend/public/module/k8s and the queries of
-- frontend/public/components/utils/k8s-watcher.js.
pub mod Resource
pub mod Urls
mod Tests
pub mod Probe
pub mod Ports
pub mod Hooks
pub mod Workloads
pub mod Queries
pub mod References
