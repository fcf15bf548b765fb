-- ===== src/Ext2/Bitmaps.antt =====
-- hello-ext2/src/ext2-create.c: the bitmaps of the image, and the counts that stand for them.
use yep.Common.{
  ℕ, zero, suc, ◌+◌, ◌-◌, ◌≤◌, ◌<◌, ◌≡◌, refl, subst, sym, Bool, true, false, leb, ◌==◌,
  if◌then◌else◌, arith, Bool-cases, inl, inr,
}
use yep.Ext2.Disk.{World, Disk, done, ◌>>=◌, attempt, lseek, write, ftruncate, open_image, close}
use yep.Ext2.Layout.{num_blocks, num_inodes, last_block, last_ino}
use yep.Ext2.Create.{main}
use yep.Ext2.Reader.{
  magic, inodes_count, blocks_count, free_blocks_count, free_inodes_count, first_data_block, le16,
  group, block_used, inode_used, count_free,
}
use yep.Ext2.Image.{final, returned-final}

same : Bool → Bool → Bool
same true b = b
same false true = false
same false false = true

-- Two tests agree on `n` numbers from `i` on, by evaluation.
agree : (ℕ → Bool) → (ℕ → Bool) → ℕ → ℕ → Bool
agree f g i zero = true
agree f g i (suc n) = if same (f i) (g i) then agree f g (i + 1) n else false

agree-eq :
    (f g : ℕ → Bool) (i n : ℕ) → agree f g i n ≡ true → (j : ℕ) → i ≤ j → j < i + n → f j ≡ g j
unfolding agree same
agree-eq f g i zero e j h k = absurd (omega arith)
agree-eq f g i (suc n) e j h k = elim (Bool-cases (i == j)) [
  | inl s ↦ ground (arith, e)
  | inr s ↦ agree-eq f g (i + 1) n (ground (arith, e)) j (ground arith) (omega arith)
]

-- What the numbers of an image say, and that they are those of its bitmaps.
pub record IsCounted (img : ℕ → ℕ) : Type 0 where
  pub signature : magic img ≡ 0xEF53
  pub blocks : blocks_count img ≡ num_blocks
  pub inodes : inodes_count img ≡ num_inodes
  pub used_blocks :
      (b : ℕ)
      → first_data_block img ≤ b
      → b < blocks_count img
      → block_used img b ≡ leb b last_block
  pub used_inodes : (i : ℕ) → 1 ≤ i → i ≤ inodes_count img → inode_used img i ≡ leb i last_ino
  pub free_blocks :
      free_blocks_count img
      ≡ count_free (block_used img) (first_data_block img) (blocks_count img - first_data_block img)
  pub free_inodes : free_inodes_count img ≡ count_free (inode_used img) 1 (inodes_count img)
  pub group_blocks : le16 img (group img + 12) ≡ free_blocks_count img
  pub group_inodes : le16 img (group img + 14) ≡ free_inodes_count img

final-IsCounted : (w : World) (d : Disk) → IsCounted (final w d).bytes
unfolding final main ◌>>=◌ attempt lseek write ftruncate open_image close magic inodes_count
    blocks_count free_blocks_count free_inodes_count first_data_block group block_used inode_used
    count_free agree same
final-IsCounted w d = record {
  signature = refl;
  blocks = refl;
  inodes = refl;
  used_blocks =
      λ b h k. agree-eq (block_used (final w d).bytes) (λ j. leb j last_block) 1 1023 refl b h k;
  used_inodes = λ i h k.
      agree-eq (inode_used (final w d).bytes) (λ j. leb j last_ino) 1 num_inodes refl i h
        (omega arith);
  free_blocks = refl;
  free_inodes = refl;
  group_blocks = refl;
  group_inodes = refl;
}

-- In the image that a run of `main` leaves which returns: the signature and the sizes are those of
-- the format; of the blocks from the first data block on exactly those up to the last block of the
-- program are marked in use, and of the inodes exactly those up to the last one; and the counts of
-- free blocks and free inodes, in the superblock and in the group descriptor, are the numbers of
-- blocks and inodes that the bitmaps leave free.
pub main-IsCounted : (w : World) (d d' : Disk) → main w d ≡ done tt d' → IsCounted d'.bytes
main-IsCounted w d d' h =
    subst (λ x. IsCounted x.bytes) (sym (returned-final w d d' h)) (final-IsCounted w d)
