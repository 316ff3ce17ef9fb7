-- ===== src/Rbac.antt =====
-- Roles and their bindings: frontend/public/components/RBAC/edit-rule.jsx and bindings.jsx.
pub mod Rule
pub mod Selected
pub mod Saved
pub mod Bindings
pub mod BindingForm
pub mod Subjects
pub mod Requests
mod Tests
