-- ===== src/Editor.antt =====
-- Lists of pairs that a user edits: frontend/public/components/utils/name-value-editor.jsx.
pub mod Pairs
pub mod Laws
mod Tests
