-- ===== src/Validation.antt =====
-- Request validation, supabase/functions/_shared/validation.ts.
pub mod Check
pub mod Targets
pub mod Bot
pub mod Patch
pub mod Forms
pub mod Accept
pub mod Fields
pub mod Optional
pub mod Basket
pub mod Plain
pub mod Throws
pub mod Total
