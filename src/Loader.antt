-- ===== src/Loader.antt =====
-- bpfloader/UprobeStatsBpfLoad.cpp: the loader of the eBPF objects, which creates and pins their maps
-- and programs at boot.
pub mod Bpffs
pub mod Stream
pub mod Elf
pub mod Symbols
pub mod Names
pub mod Maps
pub mod Relo
pub mod Code
pub mod Sections
pub mod Objects
pub mod Files
pub mod Boot
pub mod Macros
mod Tests
mod FileTests
