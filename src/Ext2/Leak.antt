-- ===== src/Ext2/Leak.antt =====
-- hello-ext2/src/ext2-create.c: the entry that fills a block is longer than the structure.
use yep.Common.{ℕ, ◌+◌, ◌<◌, ◌≡◌, subst, sym, refl, true, false, ◌-◌, leb, ltb, ◌==◌, arith}
use yep.Ext2.Disk.{World, Disk, done, ◌>>=◌, attempt, lseek, write, ftruncate, open_image, close}
use yep.Ext2.Layout.{block_offset, root_dir_blockno}
use yep.Ext2.Entry.{entry_source}
use yep.Ext2.Create.{main}
use yep.Ext2.Image.{final, returned-final}

final_behind :
    (w : World) (d : Disk) (i : ℕ)
    → i < 680
    → (final w d).bytes (block_offset root_dir_blockno + 80 + 264 + i) ≡ w.behind i
unfolding final main ◌>>=◌ attempt lseek write ftruncate open_image close entry_source
final_behind w d i k =
    simp (facts.0, facts.1, facts.2, facts.3, facts.4, facts.5, facts.6, facts.7, facts.8, facts.9)
      refl
  where
    facts :
        (leb 23552 (21848 + i) ≡ false)
        × (leb 22552 (21848 + i) ≡ false)
        × (leb 22540 (21848 + i) ≡ false)
        × (leb 22528 (21848 + i) ≡ false)
        × (leb 21584 (21848 + i) ≡ true)
        × (ltb (21848 + i) 22528 ≡ true)
        × (21848 + i - 21584 ≡ 264 + i)
        × (ltb (264 + i) 263 ≡ false)
        × ((264 + i == 263) ≡ false)
        × (264 + i - 264 ≡ i)
    facts = ground arith

-- In the image that a run of `main` leaves which returns, the entry that fills the block of the root
-- directory ends with 680 bytes that stood on the stack behind the structure.
pub main_behind :
    (w : World) (d d' : Disk) (i : ℕ)
    → main w d ≡ done tt d'
    → i < 680
    → d'.bytes (block_offset root_dir_blockno + 80 + 264 + i) ≡ w.behind i
main_behind w d d' i h u =
    subst (λ x. x.bytes (block_offset root_dir_blockno + 80 + 264 + i) ≡ w.behind i)
      (sym (returned-final w d d' h)) (final_behind w d i u)
