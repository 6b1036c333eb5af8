-- ===== src/PolicyBuilder/Groups.antt =====
-- The methods of `PolicyBuilder` that put rules together for common needs.
pub mod Files
pub mod Process
pub mod Memory
pub mod Startup
pub mod Network
