-- ===== src/Ext2/Create.antt =====
-- hello-ext2/src/ext2-create.c: `main`.
use yep.Common.{◌*◌}
use yep.Ext2.Disk.{M, ◌>>◌, open_image, ftruncate, close}
use yep.Ext2.Layout.{block_size, num_blocks}
use yep.Ext2.Writers.{
  write_superblock, write_block_group_descriptor_table, write_block_bitmap, write_inode_bitmap,
  write_root_dir_block, write_lost_and_found_dir_block, write_hello_world_file_block,
}
use yep.Ext2.Inodes.{write_inode_table}

-- A run that returns has status 0.
unfoldable pub main : M (Unit {0})
unfolding write_superblock write_block_group_descriptor_table write_block_bitmap write_inode_bitmap
    write_inode_table write_root_dir_block write_lost_and_found_dir_block
    write_hello_world_file_block
main = do
  open_image
  ftruncate 0
  ftruncate (num_blocks * block_size)
  write_superblock
  write_block_group_descriptor_table
  write_block_bitmap
  write_inode_bitmap
  write_inode_table
  write_root_dir_block
  write_lost_and_found_dir_block
  write_hello_world_file_block
  close
