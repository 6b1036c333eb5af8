-- ===== src/Tests.antt =====
-- Runs of the modelled code at concrete inputs.
pub mod Interpreter
pub mod Policies
pub mod Builders
pub mod Parts
pub mod Sockets
pub mod Channel
pub mod Installing
pub mod Trees
pub mod Watching
pub mod Asked
