-- ===== src/Ext2/Paths.antt =====
-- hello-ext2/src/ext2-create.c: the directories and the files of the image.
use yep.Common.{ℕ, ◌≡◌, refl, subst, sym, List, [], ◌∷◌, ◌++◌, ◌+◌, ◌==◌, if◌then◌else◌}
use yep.Ext2.Disk.{World, Disk, done, ◌>>=◌, attempt, lseek, write, ftruncate, open_image, close}
use yep.Ext2.Layout.{ext2_root_ino, lost_and_found_ino, hello_world_ino, hello_ino}
use yep.Ext2.Writers.{dot, dot_dot, lost_and_found, hello_world, hello, content}
use yep.Ext2.Create.{main}
use yep.Ext2.Reader.{read_file, read_link, read_dir, links_count}
use yep.Ext2.Image.{final, returned-final}

-- What a reader of an image sees by the names of its files.
pub record HasFiles (img : ℕ → ℕ) : Type 0 where
  pub root :
      read_dir img ext2_root_ino
      ≡ (ext2_root_ino, dot)
        ∷ (ext2_root_ino, dot_dot)
        ∷ (lost_and_found_ino, lost_and_found)
        ∷ (hello_world_ino, hello_world)
        ∷ (hello_ino, hello)
        ∷ []
  pub lost :
      read_dir img lost_and_found_ino ≡ (lost_and_found_ino, dot) ∷ (ext2_root_ino, dot_dot) ∷ []
  pub file : read_file img hello_world_ino ≡ content
  pub link : read_link img hello_ino ≡ hello_world

final-HasFiles : (w : World) (d : Disk) → HasFiles (final w d).bytes
unfolding final main ◌>>=◌ attempt lseek write ftruncate open_image close read_dir read_file
    read_link
final-HasFiles w d = record { root = refl; lost = refl; file = refl; link = refl }

-- Whatever the file held before, whatever the time, and whatever stands behind the entries on the
-- stack: in the image that a run of `main` leaves which returns, a reader finds in the root directory
-- ".", "..", "lost+found", "hello-world" and "hello" with their inodes and nothing else, in
-- "lost+found" only "." and "..", in "hello-world" the text, and in the link "hello" the name
-- "hello-world".
pub main-HasFiles : (w : World) (d d' : Disk) → main w d ≡ done tt d' → HasFiles d'.bytes
main-HasFiles w d d' h =
    subst (λ x. HasFiles x.bytes) (sym (returned-final w d d' h)) (final-HasFiles w d)

-- How many entries name an inode.
unfoldable pub count_names : ℕ → List (ℕ × List ℕ) → ℕ
count_names ino [] = 0
count_names ino (e ∷ es) = (if e.0 == ino then 1 else 0) + count_names ino es

-- The entries of the two directories of an image.
abbrev pub all_entries : (ℕ → ℕ) → List (ℕ × List ℕ)
all_entries img = read_dir img ext2_root_ino ++ read_dir img lost_and_found_ino

pub record HasLinks (img : ℕ → ℕ) : Type 0 where
  pub root : links_count img ext2_root_ino ≡ count_names ext2_root_ino (all_entries img)
  pub lost : links_count img lost_and_found_ino ≡ count_names lost_and_found_ino (all_entries img)
  pub file : links_count img hello_world_ino ≡ count_names hello_world_ino (all_entries img)
  pub link : links_count img hello_ino ≡ count_names hello_ino (all_entries img)

final-HasLinks : (w : World) (d : Disk) → HasLinks (final w d).bytes
unfolding final main ◌>>=◌ attempt lseek write ftruncate open_image close read_dir links_count
    count_names
final-HasLinks w d = record { root = refl; lost = refl; file = refl; link = refl }

-- In the image that a run of `main` leaves which returns, the number of links in each of the four
-- inodes is the number of the entries that name the inode in the two directories.
pub main-HasLinks : (w : World) (d d' : Disk) → main w d ≡ done tt d' → HasLinks d'.bytes
main-HasLinks w d d' h =
    subst (λ x. HasLinks x.bytes) (sym (returned-final w d d' h)) (final-HasLinks w d)
