-- ===== src/Operators.antt =====
-- Software updates: frontend/public/components/utils/operator-states.jsx and
-- frontend/public/components/utils/container-linux-update-operator.js.
pub mod States
pub mod Channel
pub mod ContainerLinux
pub mod Counting
mod Tests
