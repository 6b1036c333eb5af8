-- ===== src/PolicyBuilder.antt =====
-- sandboxed_api/sandbox2/policybuilder.{h,cc}
pub mod Verify
pub mod Dispatch
pub mod State
pub mod Rules
pub mod Groups
pub mod FileMounts
pub mod Keeps
pub mod Build
pub mod Calls
pub mod Settings
