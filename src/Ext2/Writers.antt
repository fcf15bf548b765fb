-- ===== src/Ext2/Writers.antt =====
-- hello-ext2/src/ext2-create.c: the writers of the blocks other than the inode table.
use yep.Common.{ℕ, zero, suc, ◌+◌, ◌-◌, ◌*◌, ◌%◌, ◌^◌, List, [], ◌∷◌, ◌==◌, if◌then◌else◌}
use yep.Ext2.Disk.{M, ◌>>=◌, ◌>>◌, lseek, write, get_current_time}
use yep.Ext2.Layout.{
  block_size, block_offset, num_blocks, num_inodes, ext2_root_ino, lost_and_found_ino,
  hello_world_ino, hello_ino, block_bitmap_blockno, inode_bitmap_blockno, inode_table_blockno,
  root_dir_blockno, lost_and_found_dir_blockno, hello_world_file_blockno, num_free_blocks,
  num_free_inodes, byte_at, Superblock, superblock_bytes, BlockGroupDescriptor,
  block_group_descriptor_bytes,
}
use yep.Ext2.Entry.{DirEntry, dir_entry_set, dir_entry_write}

-- The superblock at a time.
unfoldable pub superblock : ℕ → Superblock
superblock current_time = record {
  s_inodes_count = num_inodes;
  s_blocks_count = num_blocks;
  s_r_blocks_count = 0;
  s_free_blocks_count = num_free_blocks;
  s_free_inodes_count = num_free_inodes;
  s_first_data_block = 1;
  s_log_block_size = 0;
  s_log_frag_size = 0;
  s_blocks_per_group = block_size * 8;
  s_frags_per_group = block_size * 8;
  s_inodes_per_group = num_inodes;
  s_mtime = 0;
  s_wtime = current_time;
  s_mnt_count = 0;
  s_max_mnt_count = 2 ^ 16 - 1;  -- -1
  s_magic = 0xEF53;
  s_state = 1;
  s_errors = 1;
  s_minor_rev_level = 0;
  s_lastcheck = current_time;
  s_checkinterval = 1;
  s_creator_os = 0;
  s_rev_level = 0;
  s_def_resuid = 0;
  s_def_resgid = 0;
  s_pad = [];
  s_uuid =
      0x5A ∷ 0x1E ∷ 0xAB ∷ 0x1E ∷ 0x13 ∷ 0x37 ∷ 0x13 ∷ 0x37 ∷ 0x13 ∷ 0x37 ∷ 0xC0 ∷ 0xFF ∷ 0xEE
      ∷ 0xC0 ∷ 0xFF ∷ 0xEE ∷ [];
  s_volume_name = 104 ∷ 101 ∷ 108 ∷ 108 ∷ 111 ∷ [];  -- "hello"
  s_reserved = [];
}

-- `sizeof(superblock)`
abbrev pub superblock_size : ℕ
superblock_size = 1052

unfoldable pub write_superblock : M (Unit {0})
unfolding superblock superblock_bytes byte_at get_current_time
write_superblock = do
  lseek (block_offset 1)
  current_time ← get_current_time
  write (byte_at (superblock_bytes (superblock current_time))) superblock_size

unfoldable pub block_group_descriptor : BlockGroupDescriptor
block_group_descriptor = record {
  bg_block_bitmap = block_bitmap_blockno;
  bg_inode_bitmap = inode_bitmap_blockno;
  bg_inode_table = inode_table_blockno;
  bg_free_blocks_count = num_free_blocks;
  bg_free_inodes_count = num_free_inodes;
  bg_used_dirs_count = 2;
  bg_pad = 0;
  bg_reserved = [];
}

unfoldable pub write_block_group_descriptor_table : M (Unit {0})
unfolding block_group_descriptor block_group_descriptor_bytes byte_at
write_block_group_descriptor_table = do
  lseek (block_offset 2)
  write (byte_at (block_group_descriptor_bytes block_group_descriptor)) 32

-- An assignment to an element of an array of bytes, and the loop that gives `n` of them from `i` on
-- one value.
abbrev pub assign : ℕ → ℕ → (ℕ → ℕ) → ℕ → ℕ
assign i v a j = if i == j then v else a j

unfoldable pub fill : ℕ → ℕ → ℕ → (ℕ → ℕ) → ℕ → ℕ
fill i zero v a = a
fill i (suc n) v a = fill (i + 1) n v (assign i v a)

unfoldable pub block_bitmap : ℕ → ℕ
unfolding fill
block_bitmap =
    fill 128 (block_size - 128) 0xFF
      (assign 127 0x80 (assign 2 0x7F (assign 1 0xFF (assign 0 0xFF (λ _. 0)))))

unfoldable pub write_block_bitmap : M (Unit {0})
unfolding block_bitmap
write_block_bitmap = do lseek (block_offset block_bitmap_blockno); write block_bitmap block_size

unfoldable pub inode_bitmap : ℕ → ℕ
unfolding fill
inode_bitmap = fill 16 (block_size - 16) 0xFF (assign 1 0x1F (assign 0 0xFF (λ _. 0)))

unfoldable pub write_inode_bitmap : M (Unit {0})
unfolding inode_bitmap
write_inode_bitmap = do lseek (block_offset inode_bitmap_blockno); write inode_bitmap block_size

-- ".", "..", "lost+found", "hello-world" and "hello"
abbrev pub dot : List ℕ
dot = 46 ∷ []

abbrev pub dot_dot : List ℕ
dot_dot = 46 ∷ 46 ∷ []

abbrev pub lost_and_found : List ℕ
lost_and_found = 108 ∷ 111 ∷ 115 ∷ 116 ∷ 43 ∷ 102 ∷ 111 ∷ 117 ∷ 110 ∷ 100 ∷ []

abbrev pub hello_world : List ℕ
hello_world = 104 ∷ 101 ∷ 108 ∷ 108 ∷ 111 ∷ 45 ∷ 119 ∷ 111 ∷ 114 ∷ 108 ∷ 100 ∷ []

abbrev pub hello : List ℕ
hello = 104 ∷ 101 ∷ 108 ∷ 108 ∷ 111 ∷ []

-- The entry without an inode that takes the rest of a block; its length is a u16.
unfoldable pub fill_entry : ℕ → DirEntry
fill_entry bytes_remaining = record {
  inode = 0;
  rec_len = bytes_remaining % 2 ^ 16;
  name_len = 0;
  name = [];
}

-- The entries of a directory one after the other, and the entry that fills the block.
unfoldable pub write_entries : ℕ → List DirEntry → M (Unit {0})
unfolding dir_entry_write fill_entry
write_entries bytes_remaining [] = dir_entry_write (fill_entry bytes_remaining)
write_entries bytes_remaining (entry ∷ more) = do
  dir_entry_write entry
  write_entries (bytes_remaining - entry.rec_len) more

unfoldable pub root_entries : List DirEntry
unfolding dir_entry_set
root_entries =
    dir_entry_set ext2_root_ino dot
    ∷ dir_entry_set ext2_root_ino dot_dot
    ∷ dir_entry_set lost_and_found_ino lost_and_found
    ∷ dir_entry_set hello_world_ino hello_world
    ∷ dir_entry_set hello_ino hello
    ∷ []

-- The offset of the second `lseek` is the result of the first.
unfoldable pub write_root_dir_block : M (Unit {0})
unfolding write_entries root_entries
write_root_dir_block = do
  lseek (block_offset root_dir_blockno)
  lseek (block_offset root_dir_blockno)
  write_entries block_size root_entries

unfoldable pub lost_and_found_entries : List DirEntry
unfolding dir_entry_set
lost_and_found_entries =
    dir_entry_set lost_and_found_ino dot ∷ dir_entry_set ext2_root_ino dot_dot ∷ []

unfoldable pub write_lost_and_found_dir_block : M (Unit {0})
unfolding write_entries lost_and_found_entries
write_lost_and_found_dir_block = do
  lseek (block_offset lost_and_found_dir_blockno)
  write_entries block_size lost_and_found_entries

-- "Hello world\n"
abbrev pub content : List ℕ
content = 72 ∷ 101 ∷ 108 ∷ 108 ∷ 111 ∷ 32 ∷ 119 ∷ 111 ∷ 114 ∷ 108 ∷ 100 ∷ 10 ∷ []

-- The size of the array counts the NUL.
unfoldable pub write_hello_world_file_block : M (Unit {0})
unfolding byte_at
write_hello_world_file_block = do
  lseek (block_offset hello_world_file_blockno)
  write (byte_at content) 13
