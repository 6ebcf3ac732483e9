-- ===== src/Nfsfs.antt =====
-- internal/nfsfs: the file system that the NFS server shows.
pub mod Conn
pub mod Errors
pub mod Paths
pub mod File
pub mod Fs
pub mod Serve
