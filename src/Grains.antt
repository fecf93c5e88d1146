-- ===== src/Grains.antt =====
-- src/grains: where measurements come from.
pub mod Recipients
pub mod Statsd
pub mod Osquery
pub mod TestProbe
pub mod Packet
pub mod SocketIo
pub mod Tls
pub mod CString
pub mod Ebpf
pub mod Network
pub mod Dns
pub mod Syscalls
pub mod Files
