-- ===== src/Lib.antt =====
-- UprobeStats: probes on methods of the system server, their records and what becomes of them.
--
-- The program has four parts. A boot time loader (src/bpfloader/UprobeStatsBpfLoad.cpp) creates and
-- pins the maps and programs of the eBPF objects. The eBPF programs (src/bpf_progs/*.c) run in the
-- kernel at each hit of a probe; they read the registers and the user memory of the probed call and
-- submit a record to a ring buffer. The daemon (src/UprobeStats.cpp) reads a configuration, asks the
-- guardrail whether it is permitted, resolves its task and its probes, places the probes, and
-- starts one thread for each ring buffer. A thread polls its ring buffer until the duration is over
-- and writes a statsd atom for each record. The ring buffer is the shared state between the kernel
-- and the threads.
--
-- Which file models what:
-- - Prelude and its children: words, bytes and texts, lists, Boolean tests. A text is the list of
--   its bytes; a w-bit number is a natural number with its wrap-around written out; a signed number
--   is ℤ.
-- - Progs.Kernel: the helpers of the kernel (bpf_probe_read_user, bpf_probe_read_user_str,
--   bpf_ktime_get_ns, bpf_get_current_pid_tgid), a parameter of the programs, with their documented
--   behaviour. User memory is what they answer during one run of a program.
-- - Progs.Structs, Progs.Fns: src/bpf/headers/include/uprobestats_bpf_structs.h and
--   uprobestats_bpf_fns.h (recordString, recordStringArg, recordStringArgFromSp, load).
-- - Progs.Process, Progs.Disruptive, Progs.Generic, Progs.Binder, Progs.Bitmap: the programs of
--   src/bpf_progs/ProcessManagement.c, DisruptiveApp.c, GenericInstrumentation.c, Binder.c and
--   BitmapAllocation.c. A program takes the slot that the reservation gives, or nothing, and returns
--   its value with the record that it submits. Progs.Bitmap.Trace runs sequences of probe hits over
--   the map of active bitmaps, which is an interface, ActiveBitmaps.
-- - Ringbuf: isEmpty, roundLength and ConsumeAll of src/bpf/headers/include/bpf/BpfRingbuf.h, over
--   the bytes of the data area and the two positions. Ringbuf.Log is the specification: the log of
--   entries that the data area holds, and what reading it means. The loop of ConsumeAll is on fuel;
--   one round for each entry and one more are enough.
-- - BpfMap: isEmpty, iterate, iterateWithValue and clear of src/bpf/headers/include/bpf/BpfMap.h,
--   over the system calls on a map. The loops are on fuel; one round for each key and one more are
--   enough. BpfMap.Calls is getFirstKey, getNextKey, readValue, writeValue and deleteValue.
--   BpfMap.Open is abortOnMismatch and what init makes of it, BpfMap.Handle the objects that own a
--   descriptor (constructors, init, reset, the assignments, resetMap), and BpfMap.Handle.Store
--   sequences of operations on several of them.
-- - Bpf: bpfPerfEventOpen, pollRingBuf and consumeRingBuf of src/Bpf.cpp, and Init of BpfRingbuf.h.
--   Bpf.Life is Create, Init and the destructor of BpfRingbuf.h, for the descriptors and the memory.
-- - Config: the messages of src/config.proto that are read, with optional fields as options.
-- - LibBase: the functions of android-base that are called, a parameter with documented laws.
-- - Guardrail: src/Guardrail.cpp (getFullMethodName, isAllowed).
-- - Resolver: src/ConfigResolver.cpp (readConfig, resolveSingleTask, resolveProbes); Resolver.Pid
--   is src/Process.cpp (getPid), Resolver.Oat is src/Art.cpp (getMethodOffsetFromOatdump).
-- - Main: main and prefixBpf of src/UprobeStats.cpp, over a Device that holds the flags, the
--   configuration and what the other components answer. Poll is its doPoll: the environment gives
--   the clock and the records turn by turn, and the loop is recursion on the turns. Poll.Atoms holds
--   the atom for each kind of record; a read outside an array is an undefined result, `none`.
-- - Loader: src/bpfloader/UprobeStatsBpfLoad.cpp. Loader.Bpffs is the kernel's interface, whose
--   state every call passes on; Loader.Names is pathToObjName, getSectionType and IsAllowed,
--   Loader.Stream is the ifstream of an object file, Loader.Elf is readElfHeader to
--   readSectionByType and getSymName, Loader.Symbols is readSymTab, getSectionSymNames and
--   getSymNameByIdx, Loader.Sections is readProgDefs and readCodeSections, Loader.Maps is
--   mapMatchesExpectations and createMaps, Loader.Relo is applyRelo and applyMapRelo, Loader.Code is
--   loadCodeSections, Loader.Objects is loadProg from what is read on, loadAllElfObjects and
--   createSysFsBpfSubDir, Loader.Files is loadProg of the bytes of a file, and Loader.Boot is
--   createBpfFsSubDirectories, legacyBpfLoader and load. Loader.Macros is DEFINE_BPF_MAP_BASE,
--   DEFINE_BPF_PROG_EXT, what stands on them, LICENSE and CRITICAL in
--   src/bpf/headers/include/bpf_helpers.h, and Loader.Macros.Structs the structures of
--   src/bpf/headers/include/bpf_map_def.h as they are laid out. Loader.Elf.Image is the
--   specification of the reading: the file that a linker writes for its sections.
-- - Classic: src/bpf/headers/include/bpf/BpfClassic.h, the macros for filters of classic BPF. The
--   kernel's machine is a parameter (Classic.Machine); Classic.Filter is the specification, what a
--   filter of these macros means and the rules that its loads obey.
-- - Kernel: Kernel.Version and Kernel.Bitness are src/bpf/headers/include/bpf/KernelUtils.h,
--   Kernel.Calls and Kernel.Lock are src/bpf/syscall_wrappers/include/BpfSyscallWrappers.h,
--   Kernel.Utils is BpfUtils.h and WaitForProgsLoaded.h in src/bpf/headers/include/bpf. The endless
--   loop of the latter runs over the answers that it is given.
-- - Flags: src/FlagSelector.cpp. Main has its answers as fields of Device.
-- - Client: src/lib/uprobestats_client.cpp, which writes the configuration and starts the daemon.
-- - Instrumentation: src/DynamicInstrumentationManager.cpp (getExecutableMethodFileOffsets), over
--   the functions of libandroid.so.
-- - Port: parts of the port of the daemon. Port.Guardrail is rust/src/guardrail.rs, Port.Retry the
--   function get_executable_method_file_offsets_with_retry of rust/src/config_resolver.rs, on fuel
--   for six rounds, which are enough.
-- - Ffi: the functions for the Rust port. Ffi.ActivityManager is rust/ffi/activity_manager.cpp,
--   Ffi.Bpf is rust/ffi/bpf.cpp.
--
-- The modules called Tests hold runs and instances of the theorems at concrete inputs; those called
-- Sample hold the data and the concrete parameters that they share.
--
-- Not modelled: logging and tracing; the parsing of the configuration (protobuf) and of JSON, whose
-- results are given; a section size that the memory cannot hold, which ends the loader;
-- the declarations of the kernel's helpers (bpf_helpers.h); what the C library scans (sscanf);
-- concurrent writes of the kernel during one call of ConsumeAll, which reads the positions once; the
-- rest of the port under rust, and the Java service.
pub mod Prelude
pub mod Progs
pub mod Ringbuf
pub mod BpfMap
pub mod Config
pub mod LibBase
pub mod Guardrail
pub mod Resolver
pub mod Bpf
pub mod Kernel
pub mod Ffi
pub mod Instrumentation
pub mod Poll
pub mod Flags
pub mod Main
pub mod Client
pub mod Classic
pub mod Port
pub mod Loader
