-- ===== src/Ramfs.antt =====
-- fs/ramfs: the in-memory file system that the OShm patch binds to a directory on disk.
pub mod Bind
pub mod Bytes
pub mod Copy
pub mod Disk
pub mod Flush
pub mod Inodes
pub mod Mount
pub mod Parse
pub mod ProcSync
pub mod Write
pub mod Vfs
mod Tests
