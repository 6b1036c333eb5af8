-- ===== src/Comms.antt =====
-- sandboxed_api/sandbox2/comms.{h,cc}: the channel between the sandboxee and its monitor.
pub mod Kernel
pub mod Connection
pub mod Transfer
pub mod Tlv
pub mod Messages
pub mod Descriptors
pub mod Stream
pub mod Wire
pub mod RoundTrip
pub mod Effects
pub mod Operations
pub mod Reach
pub mod Fifo
pub mod Truncated
pub mod Refusals
pub mod Scan
pub mod Address
