-- ===== src/Ext2/Image.antt =====
-- hello-ext2/src/ext2-create.c: what a reader finds in the image.
use yep.Common.{ℕ, ◌≡◌, ◌⊎◌, refl, sym, ap, ◌∙◌, false, arith, inl, inr}
use yep.Ext2.Disk.{
  World, Disk, Run, done, errno_exit, ◌>>=◌, attempt, lseek, write, ftruncate, open_image, close,
}
use yep.Ext2.Create.{main}
use yep.Ext2.Sound.{ideal, main-IsSound}

abbrev pub disk_of : Disk → Run (Unit {0}) → Disk
disk_of d (done a d') = d'
disk_of d errno_exit = d

-- The image of a run in which every call succeeds.
unfoldable pub final : World → Disk → Disk
unfolding main
final w d = disk_of d (main (ideal w) d)

pub main-final : (w : World) (d : Disk) → main (ideal w) d ≡ done tt (final w d)
unfolding final main ◌>>=◌ attempt lseek write ftruncate open_image close
main-final w d = refl

-- A run that returns leaves the image of a run in which every call succeeds.
pub returned-final : (w : World) (d d' : Disk) → main w d ≡ done tt d' → d' ≡ final w d
returned-final w d d' h = elim (main-IsSound.runs w d) [
  | inl e ↦ ap (disk_of d) (sym h ∙ e ∙ main-final w d)
  | inr (e, fails) ↦ absurd (ground (arith, e, h))
]

-- Every run of `main` returns, or ends because some system call fails.
pub main_ends :
    (w : World) (d : Disk)
    → ((d' : Disk) × (main w d ≡ done tt d'))
      ⊎ ((main w d ≡ errno_exit) × ((k : ℕ) × (w.answers k ≡ false)))
main_ends w d = elim (main-IsSound.runs w d) [
  | inl e ↦ inl (final w d, e ∙ main-final w d)
  | inr f ↦ inr f
]
