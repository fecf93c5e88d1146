-- ===== src/Probes.antt =====
-- ingraind-probes/src: the programs that run in the kernel and send events to the grains.
pub mod TlsFilter
pub mod Bpf
pub mod Network
pub mod File
pub mod Dns
pub mod Syscalls
