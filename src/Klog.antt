-- ===== src/Klog.antt =====
-- plugin_server/source/klog.c: the kernel log, served to clients and kept on disk.
pub mod Serve
pub mod Clients
pub mod Server
pub mod Disk
pub mod Files
mod Tests
