-- ===== src/Ffi.antt =====
-- rust/ffi: the C++ functions that the Rust port calls.
pub mod ActivityManager
pub mod Bpf
mod Tests
