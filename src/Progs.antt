-- ===== src/Progs.antt =====
-- The eBPF programs of src/bpf_progs, which run in the kernel at a probed method, and the
-- functions and structures that they share.
pub mod Kernel
pub mod Structs
pub mod Fns
pub mod Process
pub mod Disruptive
pub mod Generic
pub mod Binder
pub mod Bitmap
mod Sample
mod Tests
mod MapTests
