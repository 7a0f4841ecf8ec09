-- ===== src/Fat16.antt =====
-- src/fs/fat/fat16.c: the filesystem of the disk. A structure that is read from the disk goes to memory
-- of its own at address 0, and is decoded from there. `none` is that the fuel of a loop ran out.
pub mod Layout
pub mod Names
pub mod Clusters
pub mod Directory
pub mod Entries
pub mod Files
mod Tests
