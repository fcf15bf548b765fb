-- ===== src/Ext2/Directory.antt =====
-- hello-ext2/src/ext2-create.c: the lengths of directory entries, and that a directory is read as it
-- was written.
use yep.Common.{
  ◌==◌, ℕ, zero, suc, ◌+◌, ◌-◌, ◌%◌, ◌^◌, ◌≤◌, ◌<◌, ◌≡◌, refl, sym, ap, ap₂, ◌∙◌, List, [], ◌∷◌,
  length, arith, lt→ltb, if◌then◌else◌,
}
use native.Mathlib.Numerals.{unary_clauses}
use yep.Ext2.Disk.{World}
use yep.Ext2.Layout.{array, byte_at}
use yep.Ext2.Entry.{DirEntry, dir_entry_bytes, dir_entry_set, entry_source}
use yep.Ext2.Reader.{le16, le32, read_bytes, entries_from}

-- The entry that is set for a name of at most 255 bytes is as long as the name and the eight bytes
-- before it, rounded up to a multiple of 4, and the name's length is that of the name.
pub dir_entry_set-rec_len :
    (inode_num : ℕ) (s : List ℕ)
    → length s ≤ 255
    → let e = dir_entry_set inode_num s in
      (e.rec_len % 4 ≡ 0)
      × (8 + length s ≤ e.rec_len)
      × (e.rec_len < 12 + length s)
      × (e.name_len ≡ length s)
unfolding dir_entry_set
dir_entry_set-rec_len inode_num s h = ground arith

read_bytes-byte_at :
    (img : ℕ → ℕ) (a : ℕ) (s : List ℕ)
    → ((k : ℕ) → k < length s → img (a + k) ≡ byte_at s k)
    → read_bytes img a (length s) ≡ s
unfolding read_bytes byte_at
read_bytes-byte_at img a [] h = refl
read_bytes-byte_at img a (c ∷ s) h =
    let first : a ≡ a + 0 = omega arith in
    let shift : (k : ℕ) → a + 1 + k ≡ a + suc k = λ k. omega arith in
    ap₂ (λ x xs. x ∷ xs) (ap img first ∙ h 0 (omega arith))
      (read_bytes-byte_at img (a + 1) s (λ k l. ap img (shift k) ∙ h (suc k) (omega arith)))

byte_at-array :
    (n : ℕ) (s : List ℕ) (k : ℕ) → k < length s → length s ≤ n → byte_at (array n s) k ≡ byte_at s k
unfolding byte_at array
byte_at-array n [] k h l = absurd (omega arith)
byte_at-array zero (c ∷ s) k h l = absurd (omega arith)
byte_at-array (suc n) (c ∷ s) zero h l = refl
byte_at-array (suc n) (c ∷ s) (suc k) h l = byte_at-array n s k (omega arith) (omega arith)

-- Where the bytes of an image from `p` on are those of an entry, a reader finds its fields there.
module _ (w : World) (img : ℕ → ℕ) (p : ℕ) (e : DirEntry) (small : e.inode < 2 ^ 32)
    (short : e.rec_len < 2 ^ 16) (held : (k : ℕ) → k < 8 → img (p + k) ≡ entry_source w e k) where
  held_at : (a k : ℕ) → a ≡ p + k → k < 8 → img a ≡ entry_source w e k
  held_at a k same l = ap img same ∙ held k l

  pub read_inode : le32 img p ≡ e.inode
  unfolding entry_source byte_at dir_entry_bytes
  read_inode = ground (
    arith,
    held_at p 0 (omega arith) (omega arith),
    held_at (p + 1) 1 (omega arith) (omega arith),
    held_at (p + 2) 2 (omega arith) (omega arith),
    held_at (p + 3) 3 (omega arith) (omega arith),
  )

  pub read_rec_len : le16 img (p + 4) ≡ e.rec_len
  unfolding entry_source byte_at dir_entry_bytes
  read_rec_len = ground (
    arith,
    held_at (p + 4) 4 (omega arith) (omega arith),
    held_at (p + 4 + 1) 5 (omega arith) (omega arith),
  )

  read_name_len : le16 img (p + 6) ≡ e.name_len % 2 ^ 16
  unfolding entry_source byte_at dir_entry_bytes
  read_name_len = ground (
    arith,
    held_at (p + 6) 6 (omega arith) (omega arith),
    held_at (p + 6 + 1) 7 (omega arith) (omega arith),
  )

-- A name's bytes in the source of its entry, behind the eight bytes of the numbers.
behind_numbers :
    (e : DirEntry) (k : ℕ) → byte_at (dir_entry_bytes e) (k + 8) ≡ byte_at (array 255 e.name) k
unfolding byte_at dir_entry_bytes
behind_numbers e k = simp unary_clauses refl

source_name :
    (w : World) (e : DirEntry) (k : ℕ)
    → k < length e.name
    → length e.name ≤ 255
    → entry_source w e (k + 8) ≡ byte_at e.name k
unfolding entry_source
source_name w e k h l =
    ap
      (λ b.
        if b
        then byte_at (dir_entry_bytes e) (k + 8)
        else if k + 8 == 263
        then w.padding
        else w.behind (k + 8 - 264))
      (lt→ltb (k + 8) 263 (omega arith))
    ∙ behind_numbers e k
    ∙ byte_at-array 255 e.name k h l

set_name :
    (w : World) (ino k : ℕ) (s : List ℕ)
    → k < length s
    → length s ≤ 255
    → entry_source w (dir_entry_set ino s) (k + 8) ≡ byte_at s k
unfolding dir_entry_set
set_name w ino k s h l = source_name w (dir_entry_set ino s) k h l

-- A directory: inodes with names of at most 255 bytes, for which there is room in `n` bytes besides
-- an entry without a name.
abbrev pub Fits : ℕ → List (ℕ × List ℕ) → Type 0
Fits n [] = 8 ≤ n
Fits n ((ino, s) ∷ more) =
    (0 < ino)
    × (ino < 2 ^ 32)
    × (length s ≤ 255)
    × Fits (n - (dir_entry_set ino s).rec_len) more
    × ((dir_entry_set ino s).rec_len ≤ n)

abbrev pub entries : List (ℕ × List ℕ) → List DirEntry
entries [] = []
entries ((ino, s) ∷ more) = dir_entry_set ino s ∷ entries more

-- One round of the reader on an entry that was set and written.
pub entries_from-entry :
    (w : World) (img : ℕ → ℕ) (fuel p end ino : ℕ) (s : List ℕ)
    → 0 < ino
    → ino < 2 ^ 32
    → length s ≤ 255
    → p < end
    → ((k : ℕ)
        → k < (dir_entry_set ino s).rec_len
        → img (p + k) ≡ entry_source w (dir_entry_set ino s) k)
    → entries_from (suc fuel) img p end
      ≡ (ino, s) ∷ entries_from fuel img (p + (dir_entry_set ino s).rec_len) end
unfolding entries_from
entries_from-entry w img fuel p end ino s positive small short before held =
    let e = dir_entry_set ino s in
    let (aligned, room, tight, named) = dir_entry_set-rec_len ino s short in
    let named' : length s ≡ e.name_len % 2 ^ 16 = omega (arith, named) in
    let first : (k : ℕ) → k < 8 → img (p + k) ≡ entry_source w e k = λ k h. held k (omega arith) in
    let i : le32 img p ≡ ino =
      read_inode w img p e (unfold dir_entry_set in small) (omega arith) first
      ∙ unfold dir_entry_set in refl in
    let r : le16 img (p + 4) ≡ e.rec_len =
      read_rec_len w img p e (unfold dir_entry_set in small) (omega arith) first in
    let n : le16 img (p + 6) ≡ length s =
      read_name_len w img p e (unfold dir_entry_set in small) (omega arith) first ∙ sym named' in
    let name : read_bytes img (p + 8) (length s) ≡ s =
      read_bytes-byte_at img (p + 8) s
        (λ k h. ap img (the_same k) ∙ held (k + 8) (omega arith) ∙ set_name w ino k s h short) in
    round i r n name
  where
    round :
        le32 img p ≡ ino
        → le16 img (p + 4) ≡ (dir_entry_set ino s).rec_len
        → le16 img (p + 6) ≡ length s
        → read_bytes img (p + 8) (length s) ≡ s
        → entries_from (suc fuel) img p end
          ≡ (ino, s) ∷ entries_from fuel img (p + (dir_entry_set ino s).rec_len) end
    round i r n name = simp (i, r, n, name, lt→ltb p end before) (ground arith)

    the_same : (k : ℕ) → p + 8 + k ≡ p + (k + 8)
    the_same k = omega arith
