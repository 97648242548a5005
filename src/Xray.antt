-- ===== src/Xray.antt =====
-- backend/xray: the configuration of the core, its users, its process, and the client of its API.
pub mod Account
pub mod Flow
pub mod Inbound
pub mod User
pub mod Client
pub mod Config
pub mod Stats
pub mod Core
pub mod Version
pub mod Status
pub mod Backend
pub mod Health
pub mod Logs
