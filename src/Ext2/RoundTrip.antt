-- ===== src/Ext2/RoundTrip.antt =====
-- hello-ext2/src/ext2-create.c: a directory block that is written entry by entry is read as it was.
use yep.Common.{
  ℕ, zero, suc, ◌+◌, ◌-◌, ◌^◌, ◌≤◌, ◌<◌, ◌≡◌, refl, sym, subst, ap, ◌∙◌, List, [], ◌∷◌, length,
  arith, lt→ltb, inl, inr,
}
use yep.Ext2.Disk.{World, Disk, done, ◌>>=◌, attempt, write, placed, then_run}
use yep.Ext2.Entry.{DirEntry, dir_entry_set, entry_source, dir_entry_write}
use yep.Ext2.Writers.{fill_entry, write_entries}
use yep.Ext2.Sound.{ideal, write_entries-IsSound}
use yep.Ext2.Reader.{le16, le32, entries_from}
use yep.Ext2.Image.{disk_of}
use yep.Ext2.Directory.{
  Fits, entries, entries_from-entry, read_inode, read_rec_len, dir_entry_set-rec_len,
}

placed-inside :
    (source : ℕ → ℕ) (size at : ℕ) (bytes : ℕ → ℕ) (k : ℕ)
    → k < size
    → placed source size at bytes (at + k) ≡ source k
placed-inside source size at bytes k h =
    let back : at + k - at ≡ k = omega arith in ground (arith, ap source back)

placed-below :
    (source : ℕ → ℕ) (size at : ℕ) (bytes : ℕ → ℕ) (j : ℕ)
    → j < at
    → placed source size at bytes j ≡ bytes j
placed-below source size at bytes j h = ground arith

abbrev written : World → DirEntry → Disk → Disk
written w e d = record d {
  bytes = placed (entry_source (ideal w) e) e.rec_len d.position d.bytes;
  position = d.position + e.rec_len;
  calls = d.calls + 1;
}

dir_entry_write-written :
    (w : World) (e : DirEntry) (d : Disk) → dir_entry_write e (ideal w) d ≡ done tt (written w e d)
unfolding dir_entry_write write attempt
dir_entry_write-written w e d = refl

entries_from-end : (fuel : ℕ) (img : ℕ → ℕ) (a : ℕ) → entries_from fuel img a a ≡ []
unfolding entries_from
entries_from-end zero img a = refl
entries_from-end (suc fuel) img a = ground arith

-- One round of the reader on the entry that fills a block, which is the last.
entries_from-fill :
    (w : World) (img : ℕ → ℕ) (fuel p n : ℕ)
    → 8 ≤ n
    → n < 2 ^ 16
    → ((k : ℕ) → k < 8 → img (p + k) ≡ entry_source w (fill_entry n) k)
    → entries_from (suc fuel) img p (p + n) ≡ []
unfolding entries_from fill_entry
entries_from-fill w img fuel p n room small held =
    let i : le32 img p ≡ 0 = read_inode w img p (fill_entry n) (omega arith) (omega arith) held in
    let r : le16 img (p + 4) ≡ n =
      read_rec_len w img p (fill_entry n) (omega arith) (omega arith) held ∙ omega arith in
    let before : p < p + n = omega arith in
    simp (i, r, lt→ltb p (p + n) before) (entries_from-end fuel img (p + n))

abbrev Reads : Disk → ℕ → List (ℕ × List ℕ) → Disk → Type 0
Reads d n files d' =
    ((j : ℕ) → j < d.position → d'.bytes j ≡ d.bytes j)
    × ((fuel : ℕ)
        → length files < fuel
        → entries_from fuel d'.bytes d.position (d.position + n) ≡ files)

fill-Reads :
    (w : World) (d : Disk) (n : ℕ) → 8 ≤ n → n < 2 ^ 16 → Reads d n [] (written w (fill_entry n) d)
fill-Reads w d n room small = (λ j h. placed-below source size p d.bytes j h, last)
  where
    source : ℕ → ℕ
    source = entry_source (ideal w) (fill_entry n)

    size : ℕ
    size = (fill_entry n).rec_len

    p : ℕ
    p = d.position

    whole : n ≡ size
    whole = unfold fill_entry in omega arith

    last :
        (fuel : ℕ) → 0 < fuel → entries_from fuel (written w (fill_entry n) d).bytes p (p + n) ≡ []
    last zero h = absurd (omega arith)
    last (suc fuel) h =
        entries_from-fill (ideal w) (written w (fill_entry n) d).bytes fuel p n room small
          (λ k l. placed-inside source size p d.bytes k (omega (arith, whole)))

-- The entry in front of a directory that is read back.
entry-Reads :
    (w : World) (d d' : Disk) (n ino : ℕ) (s : List ℕ) (files : List (ℕ × List ℕ))
    → Fits n ((ino, s) ∷ files)
    → Reads (written w (dir_entry_set ino s) d) (n - (dir_entry_set ino s).rec_len) files d'
    → Reads d n ((ino, s) ∷ files) d'
entry-Reads w d d' n ino s files (positive, fits, short, more, room) (frame, reads) =
    (λ j h. frame j (omega arith) ∙ placed-below source size p d.bytes j h, first)
  where
    source : ℕ → ℕ
    source = entry_source (ideal w) (dir_entry_set ino s)

    size : ℕ
    size = (dir_entry_set ino s).rec_len

    p : ℕ
    p = d.position

    long : 8 ≤ size
    long = let (aligned, low, tight, named) = dir_entry_set-rec_len ino s short in omega arith

    rest_end : p + size + (n - size) ≡ p + n
    rest_end = omega (arith, room)

    first :
        (fuel : ℕ)
        → length ((ino, s) ∷ files) < fuel
        → entries_from fuel d'.bytes p (p + n) ≡ (ino, s) ∷ files
    first zero h = absurd (omega arith)
    first (suc fuel) h =
        entries_from-entry (ideal w) d'.bytes fuel p (p + n) ino s positive fits short
          (omega (arith, long, room))
          (λ k l. frame (p + k) (omega arith) ∙ placed-inside source size p d.bytes k l)
        ∙ ap (λ xs. (ino, s) ∷ xs)
            (ap (entries_from fuel d'.bytes (p + size)) (sym rest_end) ∙ reads fuel (omega arith))

pub write_entries-Reads :
    (w : World) (d : Disk) (n : ℕ) (files : List (ℕ × List ℕ))
    → Fits n files
    → n < 2 ^ 16
    → (d' : Disk) × (write_entries n (entries files) (ideal w) d ≡ done tt d') × Reads d n files d'
unfolding write_entries ◌>>=◌
write_entries-Reads w d n [] room small = (
  written w (fill_entry n) d,
  dir_entry_write-written w (fill_entry n) d,
  fill-Reads w d n room small,
)
write_entries-Reads w d n ((ino, s) ∷ files) (positive, fits, short, more, room) small =
    let e = dir_entry_set ino s in
    let (d', run, reads) =
      write_entries-Reads w (written w e d) (n - e.rec_len) files more (omega arith) in
    (
      d',
      ap (λ r. then_run (ideal w) r (λ _. write_entries (n - e.rec_len) (entries files)))
            (dir_entry_write-written w e d)
          ∙ run,
      entry-Reads w d d' n ino s files (positive, fits, short, more, room) reads,
    )

-- When the writes of a directory's entries return, for inodes from 1 on below 2 ^ 32, names of at most
-- 255 bytes and a block of `n` bytes, fewer than 2 ^ 16, with room for all and for an entry without a
-- name: a reader of those `n` bytes finds the same inodes and names in the same order, and the bytes
-- before them are as they were.
pub write_entries-entries_from :
    (w : World) (d d' : Disk) (n : ℕ) (files : List (ℕ × List ℕ))
    → Fits n files
    → n < 2 ^ 16
    → write_entries n (entries files) w d ≡ done tt d'
    → (entries_from (length files + 1) d'.bytes d.position (d.position + n) ≡ files)
      × ((j : ℕ) → j < d.position → d'.bytes j ≡ d.bytes j)
write_entries-entries_from w d d' n files room small h =
    let (f, run, (frame, reads)) = write_entries-Reads w d n files room small in
    elim ((write_entries-IsSound n (entries files)).runs w d) [
      | inl e ↦
          let same : f ≡ d' = ap (disk_of d) (sym run ∙ sym e ∙ h) in
          (
            subst (λ x. entries_from (length files + 1) x.bytes d.position (d.position + n) ≡ files)
                same (reads (length files + 1) (omega arith)),
            λ j l. sym (ap (λ x. x.bytes j) same) ∙ frame j l,
          )
      | inr (e, fails) ↦ absurd (ground (arith, e, h))
    ]
