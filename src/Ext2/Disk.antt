-- ===== src/Ext2/Disk.antt =====
-- The image file that hello-ext2/src/ext2-create.c writes, and the system calls that it makes.
use yep.Common.{ℕ, ◌+◌, ◌-◌, ◌%◌, ◌^◌, Bool, ltb, leb, ◌&&◌, if◌then◌else◌}

-- What the program meets: whether its k-th system call succeeds, in full for a `write`, what `time`
-- returns there, and on the stack the byte of padding in a directory entry and the bytes behind it.
pub record World : Type 0 where
  pub answers : ℕ → Bool
  pub clock : ℕ → ℕ
  pub padding : ℕ
  pub behind : ℕ → ℕ

-- The open file, with zeroes past its end, and the number of system calls made so far.
pub record Disk : Type 0 where
  pub bytes : ℕ → ℕ
  pub position : ℕ
  pub calls : ℕ

-- `errno_exit` ends the process.
pub data Run (A : Type 0) : Type 0 where
  done : A → Disk → Run A
  errno_exit : Run A

abbrev pub M : Type 0 → Type 0
M A = World → Disk → Run A

infixl 5 ◌>>=◌ ◌>>◌
abbrev pub then_run : {A B : Type 0} → World → Run A → (A → M B) → Run B
then_run w (done a d) f = f a w d
then_run w errno_exit f = errno_exit

unfoldable pub ◌>>=◌ : {A B : Type 0} → M A → (A → M B) → M B
◌>>=◌ c f w d = then_run w (c w d) f

abbrev pub ◌>>◌ : {B : Type 0} → M (Unit {0}) → M B → M B
c >> k = c >>= λ _. k

-- One system call, with its result and its effect.
unfoldable pub attempt : {A : Type 0} → (World → Disk → A) → (Disk → Disk) → M A
attempt result effect w d =
    if w.answers d.calls
    then done (result w d) (record (effect d) { calls = d.calls + 1 })
    else errno_exit

abbrev pub placed : (ℕ → ℕ) → ℕ → ℕ → (ℕ → ℕ) → ℕ → ℕ
placed source size at bytes j = if leb at j && ltb j (at + size) then source (j - at) else bytes j

-- `lseek` with SEEK_SET.
unfoldable pub lseek : ℕ → M (Unit {0})
lseek off = attempt (λ w d. tt) (λ d. record d { position = off })

unfoldable pub write : (ℕ → ℕ) → ℕ → M (Unit {0})
write source size =
    attempt (λ w d. tt)
      (λ d. record d {
        bytes = placed source size d.position d.bytes;
        position = d.position + size;
      })

unfoldable pub ftruncate : ℕ → M (Unit {0})
ftruncate size =
    attempt (λ w d. tt) (λ d. record d { bytes = λ j. if ltb j size then d.bytes j else 0 })

-- `time`, as a u32.
unfoldable pub get_current_time : M ℕ
get_current_time = attempt (λ w d. w.clock d.calls % 2 ^ 32) (λ d. d)

unfoldable pub open_image : M (Unit {0})
open_image = attempt (λ w d. tt) (λ d. record d { position = 0 })

unfoldable pub close : M (Unit {0})
close = attempt (λ w d. tt) (λ d. d)
