-- ===== src/Web.antt =====
-- The web client, web/.
pub mod Targets
pub mod Form
pub mod Editor
pub mod Session
pub mod Client
pub mod Controls
pub mod Format
pub mod Connection
pub mod Account
pub mod Allocation
pub mod Pages
