-- ===== src/Http.antt =====
-- Requests to the server and the session: frontend/public/co-fetch.js and
-- frontend/public/module/auth.js.
pub mod Fetch
pub mod Auth
pub mod Laws
pub mod Logout
mod Tests
