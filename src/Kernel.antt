-- ===== src/Kernel.antt =====
-- bpf/headers/include/bpf/KernelUtils.h and bpf/syscall_wrappers/include/BpfSyscallWrappers.h: what
-- the program asks of the kernel.
pub mod Version
pub mod Bitness
pub mod Calls
pub mod Lock
pub mod Utils
mod Tests
