-- ===== src/Filesys.antt =====
-- The file system of filesys/: each module is one class, over the disk's sectors.
pub mod Disk
pub mod FileHeader
pub mod OpenFile
pub mod Directory
pub mod PersistentBitmap
pub mod FileSystem
