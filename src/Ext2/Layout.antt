-- ===== src/Ext2/Layout.antt =====
-- hello-ext2/src/ext2-create.c: the constants and the structures of the format, as bytes.
use yep.Common.{ℕ, zero, suc, ◌-◌, ◌*◌, ◌/◌, ◌%◌, List, [], ◌∷◌, ◌++◌}

abbrev pub block_size : ℕ
block_size = 1024

abbrev pub block_offset : ℕ → ℕ
block_offset i = i * block_size

abbrev pub num_blocks : ℕ
num_blocks = 1024

abbrev pub num_inodes : ℕ
num_inodes = 128

abbrev pub ext2_root_ino : ℕ
ext2_root_ino = 2

abbrev pub lost_and_found_ino : ℕ
lost_and_found_ino = 11

abbrev pub hello_world_ino : ℕ
hello_world_ino = 12

abbrev pub hello_ino : ℕ
hello_ino = 13

abbrev pub last_ino : ℕ
last_ino = hello_ino

abbrev pub block_bitmap_blockno : ℕ
block_bitmap_blockno = 3

abbrev pub inode_bitmap_blockno : ℕ
inode_bitmap_blockno = 4

abbrev pub inode_table_blockno : ℕ
inode_table_blockno = 5

abbrev pub root_dir_blockno : ℕ
root_dir_blockno = 21

abbrev pub lost_and_found_dir_blockno : ℕ
lost_and_found_dir_blockno = 22

abbrev pub hello_world_file_blockno : ℕ
hello_world_file_blockno = 23

abbrev pub last_block : ℕ
last_block = hello_world_file_blockno

abbrev pub num_free_blocks : ℕ
num_free_blocks = num_blocks - last_block - 1

abbrev pub num_free_inodes : ℕ
num_free_inodes = num_inodes - last_ino

-- Numbers in memory, the low byte first.
abbrev pub u8 : ℕ → List ℕ
u8 n = n % 256 ∷ []

abbrev pub u16 : ℕ → List ℕ
u16 n = n % 256 ∷ n / 256 % 256 ∷ []

abbrev pub u32 : ℕ → List ℕ
u32 n = n % 256 ∷ n / 256 % 256 ∷ n / 65536 % 256 ∷ n / 16777216 % 256 ∷ []

-- An array of `n` bytes that begins with some and has zeroes after them.
unfoldable pub array : ℕ → List ℕ → List ℕ
array zero bs = []
array (suc n) [] = 0 ∷ array n []
array (suc n) (b ∷ bs) = b ∷ array n bs

-- A byte of a structure.
unfoldable pub byte_at : List ℕ → ℕ → ℕ
byte_at [] i = 0
byte_at (b ∷ bs) zero = b
byte_at (b ∷ bs) (suc i) = byte_at bs i

-- `struct ext2_superblock`; its arrays are the bytes that they begin with.
pub record Superblock : Type 0 where
  pub s_inodes_count : ℕ
  pub s_blocks_count : ℕ
  pub s_r_blocks_count : ℕ
  pub s_free_blocks_count : ℕ
  pub s_free_inodes_count : ℕ
  pub s_first_data_block : ℕ
  pub s_log_block_size : ℕ
  pub s_log_frag_size : ℕ
  pub s_blocks_per_group : ℕ
  pub s_frags_per_group : ℕ
  pub s_inodes_per_group : ℕ
  pub s_mtime : ℕ
  pub s_wtime : ℕ
  pub s_mnt_count : ℕ
  pub s_max_mnt_count : ℕ
  pub s_magic : ℕ
  pub s_state : ℕ
  pub s_errors : ℕ
  pub s_minor_rev_level : ℕ
  pub s_lastcheck : ℕ
  pub s_checkinterval : ℕ
  pub s_creator_os : ℕ
  pub s_rev_level : ℕ
  pub s_def_resuid : ℕ
  pub s_def_resgid : ℕ
  pub s_pad : List ℕ
  pub s_uuid : List ℕ
  pub s_volume_name : List ℕ
  pub s_reserved : List ℕ

unfoldable pub superblock_bytes : Superblock → List ℕ
unfolding array
superblock_bytes s =
    u32 s.s_inodes_count
    ++ (u32 s.s_blocks_count
        ++ (u32 s.s_r_blocks_count
            ++ (u32 s.s_free_blocks_count
                ++ (u32 s.s_free_inodes_count
                    ++ (u32 s.s_first_data_block
                        ++ (u32 s.s_log_block_size
                            ++ (u32 s.s_log_frag_size
                                ++ (u32 s.s_blocks_per_group
                                    ++ (u32 s.s_frags_per_group
                                        ++ (u32 s.s_inodes_per_group
                                            ++ (u32 s.s_mtime
                                                ++ (u32 s.s_wtime
                                                    ++ (u16 s.s_mnt_count
                                                        ++ (u16 s.s_max_mnt_count
                                                            ++ (u16 s.s_magic
                                                            ++ (u16 s.s_state
                                                            ++ (u16 s.s_errors
                                                            ++ (u16 s.s_minor_rev_level
                                                            ++ (u32 s.s_lastcheck
                                                            ++ (u32 s.s_checkinterval
                                                            ++ (u32 s.s_creator_os
                                                            ++ (u32 s.s_rev_level
                                                            ++ (u16 s.s_def_resuid
                                                            ++ (u16 s.s_def_resgid
                                                            ++ (array 20 s.s_pad
                                                            ++ (array 16 s.s_uuid
                                                            ++ (array 16 s.s_volume_name
                                                            ++ array 916
                                                            s.s_reserved)))))))))))))))))))))))))))

-- `struct ext2_block_group_descriptor`
pub record BlockGroupDescriptor : Type 0 where
  pub bg_block_bitmap : ℕ
  pub bg_inode_bitmap : ℕ
  pub bg_inode_table : ℕ
  pub bg_free_blocks_count : ℕ
  pub bg_free_inodes_count : ℕ
  pub bg_used_dirs_count : ℕ
  pub bg_pad : ℕ
  pub bg_reserved : List ℕ

unfoldable pub block_group_descriptor_bytes : BlockGroupDescriptor → List ℕ
unfolding array
block_group_descriptor_bytes g =
    u32 g.bg_block_bitmap
    ++ (u32 g.bg_inode_bitmap
        ++ (u32 g.bg_inode_table
            ++ (u16 g.bg_free_blocks_count
                ++ (u16 g.bg_free_inodes_count
                    ++ (u16 g.bg_used_dirs_count ++ (u16 g.bg_pad ++ array 12 g.bg_reserved))))))

-- `struct ext2_inode`; `i_block` is the bytes that the array begins with, as a symbolic link keeps
-- its target there.
pub record Inode : Type 0 where
  pub i_mode : ℕ
  pub i_uid : ℕ
  pub i_size : ℕ
  pub i_atime : ℕ
  pub i_ctime : ℕ
  pub i_mtime : ℕ
  pub i_dtime : ℕ
  pub i_gid : ℕ
  pub i_links_count : ℕ
  pub i_blocks : ℕ
  pub i_flags : ℕ
  pub i_reserved1 : ℕ
  pub i_block : List ℕ
  pub i_version : ℕ
  pub i_file_acl : ℕ
  pub i_dir_acl : ℕ
  pub i_faddr : ℕ
  pub i_frag : ℕ
  pub i_fsize : ℕ
  pub i_pad1 : ℕ
  pub i_reserved2 : List ℕ

unfoldable pub inode_bytes : Inode → List ℕ
unfolding array
inode_bytes i =
    u16 i.i_mode
    ++ (u16 i.i_uid
        ++ (u32 i.i_size
            ++ (u32 i.i_atime
                ++ (u32 i.i_ctime
                    ++ (u32 i.i_mtime
                        ++ (u32 i.i_dtime
                            ++ (u16 i.i_gid
                                ++ (u16 i.i_links_count
                                    ++ (u32 i.i_blocks
                                        ++ (u32 i.i_flags
                                            ++ (u32 i.i_reserved1
                                                ++ (array 60 i.i_block
                                                    ++ (u32 i.i_version
                                                        ++ (u32 i.i_file_acl
                                                            ++ (u32 i.i_dir_acl
                                                            ++ (u32 i.i_faddr
                                                            ++ (u8 i.i_frag
                                                            ++ (u8 i.i_fsize
                                                            ++ (u16 i.i_pad1
                                                            ++ array 8
                                                            i.i_reserved2)))))))))))))))))))

-- `sizeof(struct ext2_inode)`
abbrev pub inode_size : ℕ
inode_size = 128
