-- ===== src/Ext2/Reader.antt =====
-- How a reader finds its way in an ext2 image, from the description of the format alone: block sizes
-- and block numbers come from the superblock, the group descriptor, and the inodes. Nothing here is
-- taken from hello-ext2/src/ext2-create.c.
use yep.Common.{
  ℕ, zero, suc, ◌+◌, ◌-◌, ◌*◌, ◌/◌, ◌%◌, ◌^◌, Bool, not, List, [], ◌∷◌, ltb, ◌==◌, if◌then◌else◌,
}

abbrev pub le16 : (ℕ → ℕ) → ℕ → ℕ
le16 img a = img a + 256 * img (a + 1)

abbrev pub le32 : (ℕ → ℕ) → ℕ → ℕ
le32 img a = img a + 256 * (img (a + 1) + 256 * (img (a + 2) + 256 * img (a + 3)))

-- The superblock stands at byte 1024.
unfoldable pub magic : (ℕ → ℕ) → ℕ
magic img = le16 img (1024 + 56)

unfoldable pub inodes_count : (ℕ → ℕ) → ℕ
inodes_count img = le32 img 1024

unfoldable pub blocks_count : (ℕ → ℕ) → ℕ
blocks_count img = le32 img (1024 + 4)

unfoldable pub free_blocks_count : (ℕ → ℕ) → ℕ
free_blocks_count img = le32 img (1024 + 12)

unfoldable pub free_inodes_count : (ℕ → ℕ) → ℕ
free_inodes_count img = le32 img (1024 + 16)

unfoldable pub first_data_block : (ℕ → ℕ) → ℕ
first_data_block img = le32 img (1024 + 20)

unfoldable pub size_of_block : (ℕ → ℕ) → ℕ
size_of_block img = 1024 * 2 ^ le32 img (1024 + 24)

-- The descriptor of the first group, in the block after the superblock's.
unfoldable pub group : (ℕ → ℕ) → ℕ
unfolding first_data_block size_of_block
group img = (first_data_block img + 1) * size_of_block img

unfoldable pub bitmap_bit : (ℕ → ℕ) → ℕ → ℕ → Bool
unfolding size_of_block
bitmap_bit img block i = not (img (block * size_of_block img + i / 8) / 2 ^ (i % 8) % 2 == 0)

-- Whether a block and an inode are in use. The bitmap of the blocks begins with the first data block,
-- and that of the inodes with inode 1.
unfoldable pub block_used : (ℕ → ℕ) → ℕ → Bool
unfolding group bitmap_bit
block_used img b = bitmap_bit img (le32 img (group img)) (b - first_data_block img)

unfoldable pub inode_used : (ℕ → ℕ) → ℕ → Bool
unfolding group bitmap_bit
inode_used img ino = bitmap_bit img (le32 img (group img + 4)) (ino - 1)

-- How many of `n` numbers from `i` on are not in use.
unfoldable pub count_free : (ℕ → Bool) → ℕ → ℕ → ℕ
count_free used i zero = 0
count_free used i (suc n) = (if used i then 0 else 1) + count_free used (i + 1) n

unfoldable pub inode_offset : (ℕ → ℕ) → ℕ → ℕ
unfolding group
inode_offset img ino = le32 img (group img + 8) * size_of_block img + (ino - 1) * 128

unfoldable pub mode : (ℕ → ℕ) → ℕ → ℕ
unfolding inode_offset
mode img ino = le16 img (inode_offset img ino)

unfoldable pub file_size : (ℕ → ℕ) → ℕ → ℕ
unfolding inode_offset
file_size img ino = le32 img (inode_offset img ino + 4)

unfoldable pub links_count : (ℕ → ℕ) → ℕ → ℕ
unfolding inode_offset
links_count img ino = le16 img (inode_offset img ino + 26)

-- Where the first data block of an inode begins.
unfoldable pub data_offset : (ℕ → ℕ) → ℕ → ℕ
unfolding inode_offset
data_offset img ino = le32 img (inode_offset img ino + 40) * size_of_block img

unfoldable pub read_bytes : (ℕ → ℕ) → ℕ → ℕ → List ℕ
read_bytes img a zero = []
read_bytes img a (suc n) = img a ∷ read_bytes img (a + 1) n

-- A file of one block, and a symbolic link that is kept in its inode.
unfoldable pub read_file : (ℕ → ℕ) → ℕ → List ℕ
unfolding read_bytes file_size data_offset
read_file img ino = read_bytes img (data_offset img ino) (file_size img ino)

unfoldable pub read_link : (ℕ → ℕ) → ℕ → List ℕ
unfolding read_bytes file_size inode_offset
read_link img ino = read_bytes img (inode_offset img ino + 40) (file_size img ino)

-- The names and inodes of a directory's entries between two offsets, entry after entry by their
-- lengths; an entry without an inode is passed over. An entry has 8 bytes at least, so `fuel` is the
-- size divided by 8.
unfoldable pub entries_from : ℕ → (ℕ → ℕ) → ℕ → ℕ → List (ℕ × List ℕ)
unfolding read_bytes
entries_from zero img a end = []
entries_from (suc fuel) img a end =
    let rest = entries_from fuel img (a + le16 img (a + 4)) end in
    if not (ltb a end)
    then []
    else if le32 img a == 0
    then rest
    else (le32 img a, read_bytes img (a + 8) (le16 img (a + 6))) ∷ rest

unfoldable pub read_dir : (ℕ → ℕ) → ℕ → List (ℕ × List ℕ)
unfolding entries_from file_size data_offset
read_dir img ino =
    entries_from (file_size img ino / 8) img (data_offset img ino)
      (data_offset img ino + file_size img ino)
