-- ===== src/Ext2.antt =====
-- hello-ext2/src/ext2-create.c: the program that writes an ext2 image.
pub mod Disk
pub mod Layout
pub mod Entry
pub mod Writers
pub mod Inodes
pub mod Create
pub mod Sound
pub mod Reader
pub mod Image
pub mod Paths
pub mod Bitmaps
pub mod Directory
pub mod RoundTrip
pub mod Leak
mod Tests
