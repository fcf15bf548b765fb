-- ===== src/Vms/Walk.antt =====
-- vms/src/mmu.c: the walk of `mmu` through the three levels of page tables.
use yep.Common.{ℕ, suc, ◌≡◌, ap, ◌∙◌, if◌then◌else◌, Bool, true, false, arith, Bool-cases, inl, inr}
use yep.Vms.Pte.{vms_pte_get_ppn}
use yep.Vms.Machine.{Machine, M, ◌>>=◌, done, exits, load_bytes}
use yep.Vms.PageTable.{vms_page_table_pte_entry, vms_ppn_to_page}
use yep.Vms.Mmu.{should_generate_fault, page_fault_handler, mmu_loop, mmu}

-- The entry of a page table for an address, as it stands in memory.
unfoldable pub entry_at : Machine → ℕ → ℕ → ℕ → ℕ
entry_at m virtual_address level page_table =
    load_bytes 8 (vms_page_table_pte_entry page_table virtual_address level) m.bytes

-- The page table of the level below that the entry for an address points to.
unfoldable pub next_table : Machine → ℕ → ℕ → ℕ → ℕ
unfolding entry_at
next_table m virtual_address level page_table =
    vms_ppn_to_page (vms_pte_get_ppn (entry_at m virtual_address level page_table))

module _ (m : Machine) (va : ℕ) where
  loop_down :
      (fuel table level : ℕ) (faulted : Bool)
      → should_generate_fault (suc level) (entry_at m va (suc level) table) ≡ false
      → mmu_loop (suc fuel) va table (suc level) faulted m
        ≡ mmu_loop fuel va (next_table m va (suc level) table) level false m
  unfolding mmu_loop entry_at next_table
  loop_down fuel table level faulted h = ground (arith, h)

  loop_end :
      (fuel table : ℕ) (faulted : Bool)
      → should_generate_fault 0 (entry_at m va 0 table) ≡ false
      → mmu_loop (suc fuel) va table 0 faulted m ≡ done (vms_page_table_pte_entry table va 0) m
  unfolding mmu_loop entry_at
  loop_end fuel table faulted h = ground (arith, h)

  -- Above level 0 the handler does nothing, so the second try fails.
  loop_exits :
      (fuel table level : ℕ)
      → should_generate_fault (suc level) (entry_at m va (suc level) table) ≡ true
      → mmu_loop (suc (suc fuel)) va table (suc level) false m ≡ exits
  unfolding mmu_loop entry_at page_fault_handler
  loop_exits fuel table level h = ground (arith, h)

-- What `mmu` does at level 0 when the handler has run.
abbrev pub retried : ℕ → ℕ → M ℕ
retried virtual_address page_table m =
    if should_generate_fault 0 (entry_at m virtual_address 0 page_table)
    then exits
    else done (vms_page_table_pte_entry page_table virtual_address 0) m

loop_retried :
    (fuel table va : ℕ) (s : Machine) → mmu_loop (suc fuel) va table 0 true s ≡ retried va table s
unfolding mmu_loop entry_at
loop_retried fuel table va s = elim (Bool-cases (should_generate_fault 0 (entry_at s va 0 table))) [
  | inl e ↦ ground (arith, e)
  | inr e ↦ ground (arith, e)
]

loop_handled :
    (fuel table va : ℕ) (m : Machine)
    → should_generate_fault 0 (entry_at m va 0 table) ≡ true
    → mmu_loop (suc (suc fuel)) va table 0 false m
      ≡ (page_fault_handler va 0 table >>= λ _. mmu_loop (suc fuel) va table 0 true) m
unfolding mmu_loop entry_at
loop_handled fuel table va m h = ground (arith, h)

-- The walk without a loop: from the root table of level 2 down to level 0.
unfoldable pub walk : ℕ → M ℕ
unfolding next_table
walk virtual_address m =
    let t₂ = m.root in
    let t₁ = next_table m virtual_address 2 t₂ in
    let t₀ = next_table m virtual_address 1 t₁ in
    if should_generate_fault 2 (entry_at m virtual_address 2 t₂)
    then exits
    else if should_generate_fault 1 (entry_at m virtual_address 1 t₁)
    then exits
    else if should_generate_fault 0 (entry_at m virtual_address 0 t₀)
    then (page_fault_handler virtual_address 0 t₀ >>= λ _. retried virtual_address t₀) m
    else done (vms_page_table_pte_entry t₀ virtual_address 0) m

-- The loop of `mmu` has fuel enough and follows the entries of the three levels from the root: a
-- fault at level 2 or 1 ends the process, a fault at level 0 runs the handler once and ends the
-- process if the entry faults again, and else the result is the address of the entry at level 0.
pub mmu-walk : (virtual_address : ℕ) (m : Machine) → mmu virtual_address m ≡ walk virtual_address m
unfolding mmu walk
mmu-walk va m =
    let t₂ = m.root in
    let t₁ = next_table m va 2 t₂ in
    let t₀ = next_table m va 1 t₁ in
    elim (Bool-cases (should_generate_fault 2 (entry_at m va 2 t₂))) [
      | inl e₂ ↦ ground (arith, e₂, loop_exits m va 4 t₂ 1 e₂)
      | inr e₂ ↦ elim (Bool-cases (should_generate_fault 1 (entry_at m va 1 t₁))) [
        | inl e₁ ↦ loop_down m va 5 t₂ 1 false e₂ ∙ ground (arith, loop_exits m va 3 t₁ 0 e₁)
        | inr e₁ ↦
            loop_down m va 5 t₂ 1 false e₂
            ∙ loop_down m va 4 t₁ 0 false e₁
            ∙ elim (Bool-cases (should_generate_fault 0 (entry_at m va 0 t₀))) [
              | inl e₀ ↦
                  loop_handled 2 t₀ va m e₀
                  ∙ ap (λ f. (page_fault_handler va 0 t₀ >>= f) m)
                      (λ i u s. loop_retried 2 t₀ va s i)
                  ∙ ground arith
              | inr e₀ ↦ loop_end m va 3 t₀ false e₀ ∙ ground arith
            ]
      ]
    ]
