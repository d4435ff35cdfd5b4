-- ===== src/Validation/Total.antt =====
-- The parsers of supabase/functions/_shared/validation.ts return on every body in which no object
-- has a key `toString`.
pub mod Coercions
pub mod Readers
pub mod Parsers
