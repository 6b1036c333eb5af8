-- ===== src/Linux.antt =====
-- What the code takes from the Linux headers, on the x86-64 build that is modelled.
pub mod Syscalls
pub mod Constants
