-- ===== src/Api.antt =====
-- The backend API, supabase/functions: a Hono application behind one entry point.
pub mod Http
pub mod Effects
pub mod Engine
pub mod Auth
pub mod Request
pub mod Postgres
pub mod BotReads
pub mod BotWrites
pub mod App
pub mod Broker
pub mod Calls
pub mod Lawful
pub mod Session
pub mod Guarding
pub mod Refusal
pub mod Errors
pub mod Environment
pub mod Answers
pub mod Origins
