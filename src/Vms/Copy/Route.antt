-- ===== src/Vms/Copy/Route.antt =====
-- vms/src/mmu.c: the three entries that lead from a root table to an address.
use Prim.Native.Nat.{bit_and, bit_or}
use yep.Common.{
  ℕ, zero, suc, ◌+◌, ◌*◌, ◌/◌, ◌%◌, ◌^◌, ◌≤◌, ◌<◌, ◌≡◌, refl, ap, ap₂, ◌∙◌, true, false, arith,
}
use yep.Common.Bits.{bit_and-mask, bit_or-shift, bit_or-low, bit_or-zero, zero-bit_or, join}
use yep.Vms.Pte.{vms_pte_valid, vms_pte_read, vms_pte_write, vms_pte_get_ppn}
use yep.Vms.Machine.{Machine, done, load_bytes}
use yep.Vms.PageTable.{
  vms_page_table_index, vms_page_table_pte_entry, vms_page_table_pte_entry_from_index,
  vms_ppn_to_page,
}
use yep.Vms.Numbers.{vms_page_table_index-bits}
use yep.Vms.Mmu.{should_generate_fault, translate_address, vms_read}
use yep.Vms.Walk.{entry_at, next_table}
use yep.Vms.Access.{table_at, IsMapped, physical, vms_read-walks}
use yep.Vms.Fork.{num_pte_entries}
use yep.Vms.Copy.Idle.{SameFlags}
use yep.Vms.Copy.Tree.{entry_of, next, Within, CopyOf, entry_of-same}

abbrev pub entry₂ : (ℕ → ℕ) → ℕ → ℕ → ℕ
entry₂ b t va = entry_of b t (vms_page_table_index va 2)

abbrev pub entry₁ : (ℕ → ℕ) → ℕ → ℕ → ℕ
entry₁ b t va = entry_of b (next (entry₂ b t va)) (vms_page_table_index va 1)

abbrev pub entry₀ : (ℕ → ℕ) → ℕ → ℕ → ℕ
entry₀ b t va = entry_of b (next (entry₁ b t va)) (vms_page_table_index va 0)

-- The three entries of an address that is mapped with permission to read.
pub record Route (b : ℕ → ℕ) (t va : ℕ) : Type 0 where
  pub high : should_generate_fault 2 (entry₂ b t va) ≡ false
  pub middle : should_generate_fault 1 (entry₁ b t va) ≡ false
  pub low : should_generate_fault 0 (entry₀ b t va) ≡ false
  pub reads : vms_pte_read (entry₀ b t va) ≡ true

pub IsMapped-Route : (m : Machine) (va : ℕ) → IsMapped m va → Route m.bytes m.root va
unfolding entry_at next_table vms_page_table_pte_entry vms_page_table_pte_entry_from_index
IsMapped-Route m va h = record {
  high = h.walks 2 (omega arith);
  middle = h.walks 1 (omega arith);
  low = h.walks 0 (omega arith);
  reads = h.reads;
}

pub Route-walks :
    (m : Machine) (va : ℕ)
    → should_generate_fault 2 (entry₂ m.bytes m.root va) ≡ false
    → should_generate_fault 1 (entry₁ m.bytes m.root va) ≡ false
    → should_generate_fault 0 (entry₀ m.bytes m.root va) ≡ false
    → (level : ℕ) → level ≤ 2
    → should_generate_fault level (entry_at m va level (table_at m va level)) ≡ false
unfolding entry_at next_table vms_page_table_pte_entry vms_page_table_pte_entry_from_index
Route-walks m va high middle low zero h = low
Route-walks m va high middle low (suc zero) h = middle
Route-walks m va high middle low (suc (suc zero)) h = high
Route-walks m va high middle low (suc (suc (suc level))) h = absurd (omega arith)

pub Route-IsMapped :
    (m : Machine) (va : ℕ)
    → Route m.bytes m.root va
    → vms_pte_write (entry₀ m.bytes m.root va) ≡ true
    → IsMapped m va
unfolding entry_at next_table vms_page_table_pte_entry vms_page_table_pte_entry_from_index
Route-IsMapped m va r writes = record {
  walks = Route-walks m va r.high r.middle r.low;
  writes = writes;
  reads = r.reads;
}

pub vms_read-Route :
    (m : Machine) (va : ℕ)
    → Route m.bytes m.root va
    → vms_read va m ≡ done (load_bytes 4 (physical m va) m.bytes) m
unfolding entry_at next_table vms_page_table_pte_entry vms_page_table_pte_entry_from_index
vms_read-Route m va r = vms_read-walks m va (Route-walks m va r.high r.middle r.low) r.reads

-- The address in memory is that of the page, and the offset in it.
pub physical-next :
    (m : Machine) (va : ℕ) → physical m va ≡ next (entry₀ m.bytes m.root va) + va % 2 ^ 12
unfolding entry_at next_table vms_page_table_pte_entry vms_page_table_pte_entry_from_index
    translate_address vms_ppn_to_page
physical-next m va = offset (vms_pte_get_ppn (entry₀ m.bytes m.root va)) va
  where
    offset :
        (ppn va : ℕ)
        → bit_or (ppn * 2 ^ 12 % 2 ^ 64) (bit_and va 0xFFF) ≡ ppn * 2 ^ 12 % 2 ^ 64 + va % 2 ^ 12
    offset ppn va =
        let x = ppn * 2 ^ 12 % 2 ^ 64 in
        let y = va % 2 ^ 12 in
        let zeros : x % 2 ^ 12 ≡ 0 = omega arith in
        let short : y % 2 ^ 12 ≡ y = omega arith in
        let none_above : y / 2 ^ 12 ≡ 0 = omega arith in
        let whole : bit_or x y ≡ x / 2 ^ 12 * 2 ^ 12 + y =
          join 12 (bit_or x y) (x / 2 ^ 12) y
            (bit_or-shift 12 x y ∙ ap (bit_or (x / 2 ^ 12)) none_above ∙ bit_or-zero (x / 2 ^ 12))
            (bit_or-low 12 x y ∙ ap₂ bit_or zeros short ∙ zero-bit_or y) in
        ap (bit_or x) (bit_and-mask 12 va) ∙ whole ∙ omega arith

pub index_low : (va level : ℕ) → level ≤ 2 → vms_page_table_index va level < num_pte_entries
index_low va level h = omega (arith, vms_page_table_index-bits va level h)

pub fault-valid : (level e : ℕ) → should_generate_fault level e ≡ false → vms_pte_valid e ≡ true
unfolding should_generate_fault
fault-valid level e h = ground (arith, h)

pub fault-same :
    (level e e' : ℕ)
    → SameFlags e e'
    → should_generate_fault level e' ≡ should_generate_fault level e
unfolding should_generate_fault
fault-same level e e' s = simp (s.valid, s.read, s.write) refl

-- A mapped address is mapped as before where no table of the space has changed, and it leads to the
-- same page, which is a page of the space.
pub Route-same :
    (P : ℕ → Type 0) (b b' : ℕ → ℕ) (t va : ℕ)
    → Within P 3 b t
    → ((j : ℕ) → P j → b' j ≡ b j)
    → Route b t va
    → Route b' t va × (entry₀ b' t va ≡ entry₀ b t va) × Within P 0 b (next (entry₀ b t va))
Route-same P b b' t va (cover₂, below₂) same r =
    let i₂ = index_low va 2 (omega arith) in
    let i₁ = index_low va 1 (omega arith) in
    let i₀ = index_low va 0 (omega arith) in
    let (cover₁, below₁) = below₂ (vms_page_table_index va 2) i₂ (fault-valid 2 _ r.high) in
    let (cover₀, below₀) = below₁ (vms_page_table_index va 1) i₁ (fault-valid 1 _ r.middle) in
    let e₂ : entry₂ b' t va ≡ entry₂ b t va =
      entry_of-same b b' t (vms_page_table_index va 2) i₂ (λ j k. same j (cover₂ j k)) in
    let e₁ : entry₁ b' t va ≡ entry₁ b t va =
      ap (λ e. entry_of b' (next e) (vms_page_table_index va 1)) e₂
      ∙ entry_of-same b b' (next (entry₂ b t va)) (vms_page_table_index va 1) i₁
          (λ j k. same j (cover₁ j k)) in
    let e₀ : entry₀ b' t va ≡ entry₀ b t va =
      ap (λ e. entry_of b' (next e) (vms_page_table_index va 0)) e₁
      ∙ entry_of-same b b' (next (entry₁ b t va)) (vms_page_table_index va 0) i₀
          (λ j k. same j (cover₀ j k)) in
    (
      record {
        high = ap (should_generate_fault 2) e₂ ∙ r.high;
        middle = ap (should_generate_fault 1) e₁ ∙ r.middle;
        low = ap (should_generate_fault 0) e₀ ∙ r.low;
        reads = ap vms_pte_read e₀ ∙ r.reads;
      },
      e₀,
      below₀ (vms_page_table_index va 0) i₀ (fault-valid 0 _ r.low),
    )

-- What is mapped in a space is mapped in its copy, to a copy of the page.
pub Route-CopyOf :
    (b : ℕ → ℕ) (p c va : ℕ)
    → CopyOf 3 b p c
    → Route b p va
    → Route b c va
      × SameFlags (entry₀ b p va) (entry₀ b c va)
      × CopyOf 0 b (next (entry₀ b p va)) (next (entry₀ b c va))
Route-CopyOf b p c va copy r =
    let (flags₂, copy₂) =
      (copy (vms_page_table_index va 2) (index_low va 2 (omega arith))).1
        (fault-valid 2 _ r.high) in
    let (flags₁, copy₁) =
      (copy₂ (vms_page_table_index va 1) (index_low va 1 (omega arith))).1
        (fault-valid 1 _ r.middle) in
    let (flags₀, copy₀) =
      (copy₁ (vms_page_table_index va 0) (index_low va 0 (omega arith))).1
        (fault-valid 0 _ r.low) in
    (
      record {
        high = fault-same 2 _ _ flags₂ ∙ r.high;
        middle = fault-same 1 _ _ flags₁ ∙ r.middle;
        low = fault-same 0 _ _ flags₀ ∙ r.low;
        reads = flags₀.read ∙ r.reads;
      },
      flags₀,
      copy₀,
    )
