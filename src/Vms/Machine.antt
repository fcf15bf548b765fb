-- ===== src/Vms/Machine.antt =====
-- vms/src: the memory and the static variables that pages.c, mmu.c and vms.c share.
use yep.Common.{
  ℕ, zero, suc, ◌+◌, ◌-◌, ◌*◌, ◌/◌, ◌%◌, Bool, true, false, ◌==◌, ltb, ◌&&◌, leb, if◌then◌else◌,
}

abbrev pub page_size : ℕ
page_size = 4096

abbrev pub max_pages : ℕ
max_pages = 256

-- `base_pointer`, `allocated`, `used_pages` of pages.c, `root_page_table` of mmu.c, `arr` of vms.c,
-- and the bytes of memory by address.
pub record Machine : Type 0 where
  pub base : ℕ
  pub allocated : ℕ → Bool
  pub used_pages : ℕ
  pub root : ℕ
  pub arr : ℕ → ℕ
  pub bytes : ℕ → ℕ

-- A call returns, ends the process by `exit`, fails an `assert`, or indexes one of the arrays of
-- pages out of bounds. The fuel of a loop is `stopped` when it runs out.
pub data Run (A : Type 0) : Type 0 where
  done : A → Machine → Run A
  exits : Run A
  asserts : Run A
  faults : Run A
  stopped : Run A

abbrev pub M : Type 0 → Type 0
M A = Machine → Run A

abbrev pub then_run : {A B : Type 0} → Run A → (A → M B) → Run B
then_run (done a m) f = f a m
then_run exits f = exits
then_run asserts f = asserts
then_run faults f = faults
then_run stopped f = stopped

infixl 5 ◌>>=◌ ◌>>◌
abbrev pub ◌>>=◌ : {A B : Type 0} → M A → (A → M B) → M B
◌>>=◌ c f m = then_run (c m) f

abbrev pub ◌>>◌ : {B : Type 0} → M (Unit {0}) → M B → M B
c >> k = c >>= λ _. k

abbrev pub pure : {A : Type 0} → A → M A
pure a m = done a m

abbrev pub require : Bool → M (Unit {0})
require true m = done tt m
require false m = asserts

-- `n` bytes from an address on, the lowest first.
unfoldable pub load_bytes : ℕ → ℕ → (ℕ → ℕ) → ℕ
load_bytes zero a b = 0
load_bytes (suc n) a b = b a + 256 * load_bytes n (a + 1) b

unfoldable pub store_bytes : ℕ → ℕ → ℕ → (ℕ → ℕ) → ℕ → ℕ
store_bytes zero a v b = b
store_bytes (suc n) a v b = store_bytes n (a + 1) (v / 256) (λ j. if a == j then v % 256 else b j)

-- A page table entry, and the `int` of `vms_write` and `vms_read`.
abbrev pub load64 : ℕ → M ℕ
load64 a m = done (load_bytes 8 a m.bytes) m

abbrev pub store64 : ℕ → ℕ → M (Unit {0})
store64 a v m = done tt (record m { bytes = store_bytes 8 a v m.bytes })

abbrev pub load32 : ℕ → M ℕ
load32 a m = done (load_bytes 4 a m.bytes) m

abbrev pub store32 : ℕ → ℕ → M (Unit {0})
store32 a v m = done tt (record m { bytes = store_bytes 4 a v m.bytes })

-- `memcpy` and `memset` of a page.
abbrev pub in_page : ℕ → ℕ → Bool
in_page page j = leb page j && ltb j (page + page_size)

abbrev pub copy_page : ℕ → ℕ → M (Unit {0})
copy_page to from m =
    done tt
      (record m { bytes = λ j. if in_page to j then m.bytes (from + (j - to)) else m.bytes j })

abbrev pub clear_page : ℕ → M (Unit {0})
clear_page page m = done tt (record m { bytes = λ j. if in_page page j then 0 else m.bytes j })
