-- ===== src/Tests.antt =====
-- Concrete instances of the interfaces, tests of the definitions and examples of the theorems.
pub mod Numbers
pub mod Routing
pub mod Bots
pub mod Requests
pub mod Envelopes
pub mod Client
pub mod Settings
pub mod Answers
pub mod Editor
pub mod Pages
pub mod Engine
pub mod Database
