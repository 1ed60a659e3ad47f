-- ===== src/Filesys.antt =====
-- code/filesys: the cached disk, file headers and directories.
pub mod SynchDisk
pub mod SectorStore
pub mod Directory
pub mod FileHeader
pub mod OpenFile
