-- ===== src/Ext2/Inodes.antt =====
-- hello-ext2/src/ext2-create.c: the inode table.
use Prim.Native.Nat.{bit_or}
use yep.Common.{ℕ, ◌+◌, ◌-◌, ◌*◌, List, [], ◌∷◌}
use yep.Ext2.Disk.{M, ◌>>=◌, ◌>>◌, lseek, write, get_current_time}
use yep.Ext2.Layout.{
  block_offset, ext2_root_ino, lost_and_found_ino, hello_world_ino, hello_ino, inode_table_blockno,
  root_dir_blockno, lost_and_found_dir_blockno, hello_world_file_blockno, u32, byte_at, Inode,
  inode_bytes, inode_size,
}
use yep.Ext2.Writers.{hello_world}

-- The types and the permissions in `i_mode`.
abbrev pub ext2_s_iflnk : ℕ
ext2_s_iflnk = 0xA000

abbrev pub ext2_s_ifreg : ℕ
ext2_s_ifreg = 0x8000

abbrev pub ext2_s_ifdir : ℕ
ext2_s_ifdir = 0x4000

abbrev pub ext2_s_irusr : ℕ
ext2_s_irusr = 0x0100

abbrev pub ext2_s_iwusr : ℕ
ext2_s_iwusr = 0x0080

abbrev pub ext2_s_ixusr : ℕ
ext2_s_ixusr = 0x0040

abbrev pub ext2_s_irgrp : ℕ
ext2_s_irgrp = 0x0020

abbrev pub ext2_s_ixgrp : ℕ
ext2_s_ixgrp = 0x0008

abbrev pub ext2_s_iroth : ℕ
ext2_s_iroth = 0x0004

abbrev pub ext2_s_ixoth : ℕ
ext2_s_ixoth = 0x0001

-- The flags joined by `|`.
abbrev pub flags : List ℕ → ℕ
flags [] = 0
flags (f ∷ fs) = bit_or f (flags fs)

-- `index` is at least 1, and the product is a size_t.
unfoldable pub write_inode : ℕ → Inode → M (Unit {0})
unfolding inode_bytes byte_at
write_inode index inode = do
  lseek (block_offset inode_table_blockno + (index - 1) * inode_size)
  write (byte_at (inode_bytes inode)) inode_size

-- The inodes that begin as zeroes, with the times that all four get.
abbrev pub inode_at : ℕ → Inode
inode_at current_time = record {
  i_mode = 0;
  i_uid = 0;
  i_size = 0;
  i_atime = current_time;
  i_ctime = current_time;
  i_mtime = current_time;
  i_dtime = 0;
  i_gid = 0;
  i_links_count = 0;
  i_blocks = 0;
  i_flags = 0;
  i_reserved1 = 0;
  i_block = [];
  i_version = 0;
  i_file_acl = 0;
  i_dir_acl = 0;
  i_faddr = 0;
  i_frag = 0;
  i_fsize = 0;
  i_pad1 = 0;
  i_reserved2 = [];
}

abbrev pub directory_mode : ℕ
directory_mode = flags (
    ext2_s_ifdir ∷ ext2_s_irusr ∷ ext2_s_iwusr ∷ ext2_s_ixusr ∷ ext2_s_irgrp ∷ ext2_s_ixgrp
    ∷ ext2_s_iroth ∷ ext2_s_ixoth ∷ [])

unfoldable pub lost_and_found_inode : ℕ → Inode
lost_and_found_inode current_time = record (inode_at current_time) {
  i_mode = directory_mode;
  i_size = 1024;
  i_links_count = 2;
  i_blocks = 2;
  i_block = u32 lost_and_found_dir_blockno;
}

unfoldable pub root_inode : ℕ → Inode
root_inode current_time = record (inode_at current_time) {
  i_mode = directory_mode;
  i_size = 1024;
  i_links_count = 3;
  i_blocks = 2;
  i_block = u32 root_dir_blockno;
}

-- The size is that of "Hello world\n" without the NUL.
unfoldable pub hello_world_inode : ℕ → Inode
hello_world_inode current_time = record (inode_at current_time) {
  i_mode = flags (ext2_s_ifreg ∷ ext2_s_irusr ∷ ext2_s_iwusr ∷ ext2_s_irgrp ∷ ext2_s_iroth ∷ []);
  i_uid = 1000;
  i_size = 12;
  i_gid = 1000;
  i_links_count = 1;
  i_blocks = 2;
  i_block = u32 hello_world_file_blockno;
}

-- A symbolic link to "hello-world".
unfoldable pub hello_inode : ℕ → Inode
hello_inode current_time = record (inode_at current_time) {
  i_mode = flags (ext2_s_iflnk ∷ ext2_s_irusr ∷ ext2_s_iwusr ∷ ext2_s_irgrp ∷ ext2_s_iroth ∷ []);
  i_uid = 1000;
  i_size = 11;
  i_gid = 1000;
  i_links_count = 1;
  i_block = hello_world;
}

unfoldable pub write_inode_table : M (Unit {0})
unfolding write_inode lost_and_found_inode root_inode hello_world_inode hello_inode get_current_time
write_inode_table = do
  current_time ← get_current_time
  write_inode lost_and_found_ino (lost_and_found_inode current_time)
  write_inode ext2_root_ino (root_inode current_time)
  write_inode hello_world_ino (hello_world_inode current_time)
  write_inode hello_ino (hello_inode current_time)
