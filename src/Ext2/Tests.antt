-- ===== src/Ext2/Tests.antt =====
-- A run of hello-ext2/src/ext2-create.c, on which the theorems are applied.
use yep.Common.{ℕ, ◌+◌, ◌%◌, ◌<◌, ◌≡◌, true, List, [], ◌∷◌, arith, ltb}
use yep.Ext2.Disk.{World, Disk, done}
use yep.Ext2.Entry.{dir_entry_set}
use yep.Ext2.Writers.{hello, hello_world}
use yep.Ext2.Create.{main}
use yep.Ext2.Reader.{entries_from}
use yep.Ext2.Image.{final, main-final}
use yep.Ext2.Paths.{HasFiles, main-HasFiles, HasLinks, main-HasLinks}
use yep.Ext2.Bitmaps.{IsCounted, main-IsCounted}
use yep.Ext2.Directory.{Fits}
use yep.Ext2.RoundTrip.{write_entries-Reads, write_entries-entries_from}

abbrev world : World
world = record {
  answers = λ k. true;
  clock = λ k. 1700000000 + k;
  padding = 7;
  behind = λ i. i % 256;
}

-- The disk is full after the 20th call.
abbrev full_world : World
full_world = record world { answers = λ k. ltb k 20 }

-- A file that held other bytes.
abbrev disk : Disk
disk = record { bytes = λ j. 7; position = 0; calls = 0 }

main_returns : main world disk ≡ done tt (final world disk)
main_returns = main-final world disk

main-HasFiles_example : HasFiles (final world disk).bytes
main-HasFiles_example = main-HasFiles world disk (final world disk) main_returns

main-HasLinks_example : HasLinks (final world disk).bytes
main-HasLinks_example = main-HasLinks world disk (final world disk) main_returns

main-IsCounted_example : IsCounted (final world disk).bytes
main-IsCounted_example = main-IsCounted world disk (final world disk) main_returns

abbrev files : List (ℕ × List ℕ)
files = (12, hello_world) ∷ (13, hello) ∷ []

files_fit : Fits 1024 files
unfolding dir_entry_set
files_fit = (
  omega arith,
  omega arith,
  omega arith,
  ((omega arith, omega arith, omega arith, omega arith, omega arith)),
  omega arith,
)

-- The disk after the entries are written.
abbrev listed : Disk
listed = (write_entries-Reads world disk 1024 files files_fit (omega arith)).0

write_entries-entries_from_example :
    (entries_from 3 listed.bytes 0 1024 ≡ files) × ((j : ℕ) → j < 0 → listed.bytes j ≡ 7)
write_entries-entries_from_example =
    write_entries-entries_from world disk listed 1024 files files_fit (omega arith)
      (write_entries-Reads world disk 1024 files files_fit (omega arith)).1
