-- ===== src/Vms/Access.antt =====
-- vms/src/mmu.c: `vms_write` and `vms_read` through the page tables.
use yep.Common.{
  ℕ, zero, suc, ◌+◌, ◌*◌, ◌/◌, ◌%◌, ◌^◌, ◌≤◌, ◌<◌, ◌≡◌, refl, ap, ◌∙◌, ◌⊎◌, true, false, arith, inl,
  inr, ◌==◌, if◌then◌else◌,
}
use yep.Vms.Pte.{vms_pte_read, vms_pte_write, vms_pte_get_ppn}
use yep.Vms.Machine.{Machine, done, load_bytes, store_bytes}
use yep.Vms.PageTable.{vms_page_table_pte_entry, vms_ppn_to_page}
use yep.Vms.Mmu.{should_generate_fault, mmu, translate_address, ensure, vms_write, vms_read}
use yep.Vms.Walk.{entry_at, next_table, walk, mmu-walk}

pub store_bytes-outside :
    (n a v : ℕ) (b : ℕ → ℕ) (j : ℕ) → (j < a) ⊎ (a + n ≤ j) → store_bytes n a v b j ≡ b j
unfolding store_bytes
store_bytes-outside zero a v b j h = refl
store_bytes-outside (suc n) a v b j (inl h) =
    store_bytes-outside n (a + 1) (v / 256) (λ i. if a == i then v % 256 else b i) j
      (inl (omega arith))
    ∙ ground arith
store_bytes-outside (suc n) a v b j (inr h) =
    store_bytes-outside n (a + 1) (v / 256) (λ i. if a == i then v % 256 else b i) j
      (inr (omega arith))
    ∙ ground arith

-- Bytes that a store does not touch are loaded as before.
pub load_bytes-outside :
    (k e n a v : ℕ) (b : ℕ → ℕ)
    → (e + k ≤ a) ⊎ (a + n ≤ e)
    → load_bytes k e (store_bytes n a v b) ≡ load_bytes k e b
unfolding load_bytes
load_bytes-outside zero e n a v b h = refl
load_bytes-outside (suc k) e n a v b (inl h) = ground (
  arith,
  store_bytes-outside n a v b e (inl (omega arith)),
  load_bytes-outside k (e + 1) n a v b (inl (omega arith)),
)
load_bytes-outside (suc k) e n a v b (inr h) = ground (
  arith,
  store_bytes-outside n a v b e (inr h),
  load_bytes-outside k (e + 1) n a v b (inr (omega arith)),
)

-- The `n` low bytes of a number.
unfoldable pub low_bytes : ℕ → ℕ → ℕ
low_bytes zero v = 0
low_bytes (suc n) v = v % 256 + 256 * low_bytes n (v / 256)

pub load_bytes-store_bytes :
    (n a v : ℕ) (b : ℕ → ℕ) → load_bytes n a (store_bytes n a v b) ≡ low_bytes n v
unfolding load_bytes store_bytes low_bytes
load_bytes-store_bytes zero a v b = refl
load_bytes-store_bytes (suc n) a v b = ground (
  arith,
  store_bytes-outside n (a + 1) (v / 256) (λ j. if a == j then v % 256 else b j) a
      (inl (omega arith)),
  load_bytes-store_bytes n (a + 1) (v / 256) (λ j. if a == j then v % 256 else b j),
)

low_bytes-int : (v : ℕ) → low_bytes 4 v ≡ v % 2 ^ 32
unfolding low_bytes
low_bytes-int v = omega arith

-- The page tables of the three levels for an address.
abbrev pub table_at : Machine → ℕ → ℕ → ℕ
table_at m va zero = next_table m va 1 (next_table m va 2 m.root)
table_at m va (suc zero) = next_table m va 2 m.root
table_at m va (suc (suc level)) = m.root

-- The address is mapped: no level faults, and its page may be read and written.
pub record IsMapped (m : Machine) (va : ℕ) : Type 0 where
  pub walks :
      (level : ℕ)
      → level ≤ 2
      → should_generate_fault level (entry_at m va level (table_at m va level)) ≡ false
  pub writes : vms_pte_write (entry_at m va 0 (table_at m va 0)) ≡ true
  pub reads : vms_pte_read (entry_at m va 0 (table_at m va 0)) ≡ true

-- Where the address lies in memory.
abbrev pub physical : Machine → ℕ → ℕ
physical m va = translate_address va (entry_at m va 0 (table_at m va 0))

walks-mmu :
    (m : Machine) (va : ℕ)
    → ((level : ℕ)
        → level ≤ 2
        → should_generate_fault level (entry_at m va level (table_at m va level)) ≡ false)
    → mmu va m ≡ done (vms_page_table_pte_entry (table_at m va 0) va 0) m
unfolding walk
walks-mmu m va walks =
    mmu-walk va m
    ∙ ground (arith, walks 2 (omega arith), walks 1 (omega arith), walks 0 (omega arith))

-- A read asks for the read flag only.
pub vms_read-walks :
    (m : Machine) (va : ℕ)
    → ((level : ℕ)
        → level ≤ 2
        → should_generate_fault level (entry_at m va level (table_at m va level)) ≡ false)
    → vms_pte_read (entry_at m va 0 (table_at m va 0)) ≡ true
    → vms_read va m ≡ done (load_bytes 4 (physical m va) m.bytes) m
unfolding vms_read ensure entry_at
vms_read-walks m va walks reads = ground (arith, walks-mmu m va walks, reads)

abbrev pub stored : Machine → ℕ → ℕ → Machine
stored m va v = record m { bytes = store_bytes 4 (physical m va) v m.bytes }

pub vms_write-stored :
    (m : Machine) (va v : ℕ) → IsMapped m va → vms_write va v m ≡ done tt (stored m va v)
unfolding vms_write ensure entry_at
vms_write-stored m va v h = ground (arith, walks-mmu m va h.walks, h.writes)

pub vms_read-loaded :
    (m : Machine) (va : ℕ)
    → IsMapped m va
    → vms_read va m ≡ done (load_bytes 4 (physical m va) m.bytes) m
vms_read-loaded m va h = vms_read-walks m va h.walks h.reads

-- The stored word and the page table entries of the three levels have no byte in common.
abbrev pub IsApart : Machine → ℕ → Type 0
IsApart m va =
    (level : ℕ)
    → level ≤ 2
    → (let e = vms_page_table_pte_entry (table_at m va level) va level in
        (e + 8 ≤ physical m va) ⊎ (physical m va + 4 ≤ e))

module _ (m : Machine) (va v : ℕ) (apart : IsApart m va) where
  stored-entry :
      (level : ℕ)
      → level ≤ 2
      → entry_at (stored m va v) va level (table_at m va level)
        ≡ entry_at m va level (table_at m va level)
  unfolding entry_at
  stored-entry level h = load_bytes-outside 8 _ 4 (physical m va) v m.bytes (apart level h)

  stored-table_below : table_at (stored m va v) va 1 ≡ table_at m va 1
  unfolding next_table
  stored-table_below = ap (λ e. vms_ppn_to_page (vms_pte_get_ppn e)) (stored-entry 2 (omega arith))

  stored-table : (level : ℕ) → table_at (stored m va v) va level ≡ table_at m va level
  unfolding next_table
  stored-table zero =
      ap (λ t. next_table (stored m va v) va 1 t) stored-table_below
      ∙ ap (λ e. vms_ppn_to_page (vms_pte_get_ppn e)) (stored-entry 1 (omega arith))
  stored-table (suc zero) = stored-table_below
  stored-table (suc (suc level)) = refl

  stored-entry_at :
      (level : ℕ)
      → level ≤ 2
      → entry_at (stored m va v) va level (table_at (stored m va v) va level)
        ≡ entry_at m va level (table_at m va level)
  stored-entry_at level h =
      ap (λ t. entry_at (stored m va v) va level t) (stored-table level) ∙ stored-entry level h

  stored-IsMapped : IsMapped m va → IsMapped (stored m va v) va
  stored-IsMapped h = record {
    walks = λ level l. ap (should_generate_fault level) (stored-entry_at level l) ∙ h.walks level l;
    writes = ap vms_pte_write (stored-entry_at 0 (omega arith)) ∙ h.writes;
    reads = ap vms_pte_read (stored-entry_at 0 (omega arith)) ∙ h.reads;
  }

  -- At an address that is mapped with permission to read and to write, and whose word in memory
  -- shares no byte with the three entries of the walk: `vms_write` returns, the address stays
  -- mapped, bytes outside the word are as before, and `vms_read` then returns the value that was
  -- written, as 32 bits, and changes nothing.
  pub vms_write-vms_read :
      IsMapped m va
      → (m' : Machine) × (vms_write va v m ≡ done tt m')
        × (vms_read va m' ≡ done (v % 2 ^ 32) m')
        × IsMapped m' va
        × ((a : ℕ) → (a < physical m va) ⊎ (physical m va + 4 ≤ a) → m'.bytes a ≡ m.bytes a)
  vms_write-vms_read h =
      let h' = stored-IsMapped h in
      let same : physical (stored m va v) va ≡ physical m va =
        ap (translate_address va) (stored-entry_at 0 (omega arith)) in
      (
        stored m va v,
        vms_write-stored m va v h,
        vms_read-loaded (stored m va v) va h'
            ∙ ap (λ n. done n (stored m va v))
                (ap (λ p. load_bytes 4 p (stored m va v).bytes) same
                  ∙ load_bytes-store_bytes 4 (physical m va) v m.bytes
                  ∙ low_bytes-int v),
        h',
        λ a o. store_bytes-outside 4 (physical m va) v m.bytes a o,
      )
