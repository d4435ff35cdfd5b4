-- ===== src/Database.antt =====
-- The bots and their targets in the database, supabase/migrations, and the procedures that write
-- them.
pub mod Rows
pub mod Procedures
pub mod Inversion
pub mod Owners
pub mod Consistent
pub mod Changes
pub mod Deletes
pub mod Preserved
pub mod Creates
pub mod Updates
pub mod Executes
pub mod Reschedules
pub mod Reachable
pub mod Serving
pub mod Foreign
pub mod Running
