-- ===== src/Store.antt =====
-- The store of resources: frontend/public/module/k8s/k8s-reducers.ts, and the names of objects in
-- frontend/public/module/k8s/k8s.ts.
pub mod Maps
pub mod Lists
pub mod Loading
pub mod Events
pub mod Reducer
pub mod Views
pub mod Entries
pub mod Misplaced
mod Tests
