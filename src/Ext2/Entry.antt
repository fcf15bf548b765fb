-- ===== src/Ext2/Entry.antt =====
-- hello-ext2/src/ext2-create.c: directory entries.
use yep.Common.{ℕ, ◌+◌, ◌-◌, ◌*◌, ◌/◌, ◌%◌, ◌^◌, List, ◌++◌, length, ltb, ◌==◌, if◌then◌else◌}
use yep.Ext2.Disk.{World, M, write}
use yep.Ext2.Layout.{u16, u32, array, byte_at}

-- `struct ext2_dir_entry`; `name` is the bytes that the array begins with.
pub record DirEntry : Type 0 where
  pub inode : ℕ
  pub rec_len : ℕ
  pub name_len : ℕ
  pub name : List ℕ

unfoldable pub dir_entry_bytes : DirEntry → List ℕ
unfolding array
dir_entry_bytes e = u32 e.inode ++ (u16 e.rec_len ++ (u16 e.name_len ++ array 255 e.name))

-- The macro `dir_entry_set` on an entry of zeroes. The two lengths are u16.
unfoldable pub dir_entry_set : ℕ → List ℕ → DirEntry
dir_entry_set inode_num s =
    let len = length s in
    record {
      inode = inode_num;
      rec_len = (if len % 4 == 0 then 8 + len else 12 + len / 4 * 4) % 2 ^ 16;
      name_len = len % 2 ^ 16;
      name = s;
    }

-- The bytes from an entry's address on: the structure has 264 bytes, of which 263 are fields and the
-- last is padding, and then come those behind it.
unfoldable pub entry_source : World → DirEntry → ℕ → ℕ
unfolding dir_entry_bytes byte_at
entry_source w entry i =
    if ltb i 263
    then byte_at (dir_entry_bytes entry) i
    else if i == 263
    then w.padding
    else w.behind (i - 264)

-- The macro `dir_entry_write`: `rec_len` bytes are written, however long the entry is.
unfoldable pub dir_entry_write : DirEntry → M (Unit {0})
unfolding entry_source
dir_entry_write entry w = write (entry_source w entry) entry.rec_len w
