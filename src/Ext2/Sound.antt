-- ===== src/Ext2/Sound.antt =====
-- hello-ext2/src/ext2-create.c: what a failing system call does to a run.
use yep.Common.{
  ℕ, ◌≡◌, ◌⊎◌, refl, ap, ◌∙◌, true, false, List, [], ◌∷◌, ◌-◌, arith, inl, inr, Bool-cases,
}
use yep.Ext2.Disk.{
  World, Disk, Run, done, errno_exit, M, then_run, ◌>>=◌, ◌>>◌, attempt, lseek, write, ftruncate,
  open_image, close, get_current_time,
}
use yep.Ext2.Layout.{
  Inode, block_size, ext2_root_ino, lost_and_found_ino, hello_world_ino, hello_ino,
}
use yep.Ext2.Entry.{DirEntry, entry_source, dir_entry_write}
use yep.Ext2.Writers.{
  write_superblock, write_block_group_descriptor_table, write_block_bitmap, write_inode_bitmap,
  fill_entry, write_entries, root_entries, write_root_dir_block, lost_and_found_entries,
  write_lost_and_found_dir_block, write_hello_world_file_block,
}
use yep.Ext2.Inodes.{
  write_inode, write_inode_table, lost_and_found_inode, root_inode, hello_world_inode, hello_inode,
}
use yep.Ext2.Create.{main}

-- The same world, in which no system call fails.
abbrev pub ideal : World → World
ideal w = record w { answers = λ k. true }

-- A run goes as in the ideal world, or it ends the process because some system call failed.
pub record IsSound {A : Type 0} (c : M A) : Type 0 where
  pub runs :
      (w : World) (d : Disk)
      → (c w d ≡ c (ideal w) d) ⊎ ((c w d ≡ errno_exit) × ((k : ℕ) × (w.answers k ≡ false)))

attempt-IsSound :
    {A : Type 0} {result : World → Disk → A} (effect : Disk → Disk)
    → ((w : World) (d : Disk) → result w d ≡ result (ideal w) d)
    → IsSound (attempt result effect)
unfolding attempt
attempt-IsSound {result = result} effect same = record {
  runs = λ w d. elim (Bool-cases (w.answers d.calls)) [
    | inl e ↦ inl (ground (arith, e, same w d))
    | inr e ↦ inr (ground (arith, e), (d.calls, e))
  ];
}

bind-IsSound :
    {A B : Type 0} {c : M A} {f : A → M B}
    → IsSound c
    → ((a : A) → IsSound (f a))
    → IsSound (c >>= f)
unfolding ◌>>=◌
bind-IsSound {A = A} {c = c} {f = f} sound more = record {
  runs = λ w d. elim (sound.runs w d) [
    | inr (e, fails) ↦ inr (ap (λ r. then_run w r f) e, fails)
    | inl e ↦ elim (continues w (c (ideal w) d)) [
      | inl same ↦ inl (ap (λ r. then_run w r f) e ∙ same)
      | inr (stops, fails) ↦ inr (ap (λ r. then_run w r f) e ∙ stops, fails)
    ]
  ];
}
  where
    continues :
        (w : World) (r : Run A)
        → (then_run w r f ≡ then_run (ideal w) r f)
          ⊎ ((then_run w r f ≡ errno_exit) × ((k : ℕ) × (w.answers k ≡ false)))
    continues w (done a d') = (more a).runs w d'
    continues w errno_exit = inl refl

then-IsSound :
    {B : Type 0} {c : M (Unit {0})} {next : M B} → IsSound c → IsSound next → IsSound (c >> next)
then-IsSound sound next = bind-IsSound sound (λ a. next)

lseek-IsSound : (off : ℕ) → IsSound (lseek off)
unfolding lseek
lseek-IsSound off = attempt-IsSound _ (λ w d. refl)

write-IsSound : (source : ℕ → ℕ) (size : ℕ) → IsSound (write source size)
unfolding write
write-IsSound source size = attempt-IsSound _ (λ w d. refl)

get_current_time-IsSound : IsSound get_current_time
unfolding get_current_time
get_current_time-IsSound = attempt-IsSound _ (λ w d. refl)

dir_entry_write-IsSound : (e : DirEntry) → IsSound (dir_entry_write e)
unfolding dir_entry_write
dir_entry_write-IsSound e = record {
  runs = λ w d. (write-IsSound (entry_source w e) e.rec_len).runs w d;
}

pub write_entries-IsSound : (n : ℕ) (es : List DirEntry) → IsSound (write_entries n es)
unfolding write_entries
write_entries-IsSound n [] = dir_entry_write-IsSound (fill_entry n)
write_entries-IsSound n (e ∷ es) =
    then-IsSound (dir_entry_write-IsSound e) (write_entries-IsSound (n - e.rec_len) es)

write_inode-IsSound : (index : ℕ) (i : Inode) → IsSound (write_inode index i)
unfolding write_inode
write_inode-IsSound index i = then-IsSound (lseek-IsSound _) (write-IsSound _ _)

write_superblock-IsSound : IsSound write_superblock
unfolding write_superblock
write_superblock-IsSound =
    then-IsSound (lseek-IsSound _) (bind-IsSound get_current_time-IsSound (λ t. write-IsSound _ _))

write_inode_table-IsSound : IsSound write_inode_table
unfolding write_inode_table
write_inode_table-IsSound = bind-IsSound get_current_time-IsSound (λ t.
    then-IsSound (write_inode-IsSound lost_and_found_ino (lost_and_found_inode t)) (
      then-IsSound (write_inode-IsSound ext2_root_ino (root_inode t)) (
        then-IsSound (write_inode-IsSound hello_world_ino (hello_world_inode t))
          (write_inode-IsSound hello_ino (hello_inode t)))))

blocks-IsSound :
    IsSound write_block_group_descriptor_table
    × IsSound write_block_bitmap
    × IsSound write_inode_bitmap
    × IsSound write_root_dir_block
    × IsSound write_lost_and_found_dir_block
    × IsSound write_hello_world_file_block
unfolding write_block_group_descriptor_table write_block_bitmap write_inode_bitmap
    write_root_dir_block write_lost_and_found_dir_block write_hello_world_file_block
blocks-IsSound = (
  then-IsSound (lseek-IsSound _) (write-IsSound _ _),
  then-IsSound (lseek-IsSound _) (write-IsSound _ _),
  then-IsSound (lseek-IsSound _) (write-IsSound _ _),
  then-IsSound (lseek-IsSound _)
      (then-IsSound (lseek-IsSound _) (write_entries-IsSound block_size root_entries)),
  then-IsSound (lseek-IsSound _) (write_entries-IsSound block_size lost_and_found_entries),
  then-IsSound (lseek-IsSound _) (write-IsSound _ _),
)

open_image-IsSound : IsSound open_image
unfolding open_image
open_image-IsSound = attempt-IsSound _ (λ w d. refl)

ftruncate-IsSound : (size : ℕ) → IsSound (ftruncate size)
unfolding ftruncate
ftruncate-IsSound size = attempt-IsSound _ (λ w d. refl)

close-IsSound : IsSound close
unfolding close
close-IsSound = attempt-IsSound _ (λ w d. refl)

pub main-IsSound : IsSound main
unfolding main
main-IsSound =
    let (group, blocks, inodes, root, lost, file) = blocks-IsSound in
    then-IsSound open_image-IsSound (
      then-IsSound (ftruncate-IsSound _) (
        then-IsSound (ftruncate-IsSound _) (
          then-IsSound write_superblock-IsSound (
            then-IsSound group (
              then-IsSound blocks (
                then-IsSound inodes (
                  then-IsSound write_inode_table-IsSound
                    (then-IsSound root (then-IsSound lost (then-IsSound file close-IsSound))))))))))
