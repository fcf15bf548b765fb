-- ===== src/Vms/Copy/Tests.antt =====
-- An address space of four pages, on which the theorems of `vms_fork_copy` are applied.
use yep.Common.{ℕ, zero, suc, ◌+◌, ◌*◌, ◌%◌, ◌≤◌, ◌<◌, ◌≡◌, refl, sym, subst, ap, ◌∙◌, true, arith}
use yep.Vms.Pte.{vms_pte_valid, vms_pte_get_ppn}
use yep.Vms.Machine.{Machine, done, page_size, load_bytes}
use yep.Vms.PageTable.{
  vms_page_table_pte_entry, vms_page_table_pte_entry_from_index, vms_ppn_to_page,
}
use yep.Vms.Allocator.{count_allocated}
use yep.Vms.Mmu.{vms_set_root_page_table, vms_read, vms_write}
use yep.Vms.Fork.{num_pte_entries, vms_fork_copy}
use yep.Vms.Tests.{bytes, machine, machine-IsMapped}
use yep.Vms.Copy.Memory.{InPage, Held, Fresh, used, Extends, load_bytes-same}
use yep.Vms.Copy.Tree.{entry_of, next, Within, CopyOf, sum_entries, pages, weigh}
use yep.Vms.Copy.Whole.{Space, vms_fork_copy-CopyOf}
use yep.Vms.Walk.{entry_at, next_table}
use yep.Vms.Copy.Route.{IsMapped-Route}
use yep.Vms.Copy.Isolated.{Readable, Writable, vms_fork_copy-vms_read, vms_fork_copy-isolated}

-- A table whose entries but the first are 0.
unfoldable pub OneEntry : ℕ → Type 0
OneEntry t = (i : ℕ) → 0 < i → i < num_pte_entries → entry_of bytes t i ≡ 0

one_entry : (t : ℕ) → ((j : ℕ) → t + 8 ≤ j → j < t + page_size → bytes j ≡ 0) → OneEntry t
unfolding OneEntry load_bytes
one_entry t h i lo up =
    load_bytes-same 8 0 (t + 8 * i) (λ j. 0) bytes
      (λ o k. h (t + 8 * i + o) (omega arith) (omega arith))

one_Within :
    (P : ℕ → Type 0) (l t : ℕ)
    → OneEntry t
    → ((j : ℕ) → InPage t j → P j)
    → Within P l bytes (next (entry_of bytes t 0))
    → Within P (suc l) bytes t
unfolding OneEntry vms_pte_valid
one_Within P l t one c below = (c, λ i h v. go i h v)
  where
    go :
        (i : ℕ)
        → i < num_pte_entries
        → vms_pte_valid (entry_of bytes t i) ≡ true
        → Within P l bytes (next (entry_of bytes t i))
    go zero h v = below
    go (suc i) h v = absurd (ground (arith, v, ap vms_pte_valid (one (suc i) (omega arith) h)))

sum_zero :
    (f : ℕ → ℕ) (t i n : ℕ)
    → f 0 ≡ 0
    → OneEntry t
    → 0 < i
    → i + n ≤ num_pte_entries
    → sum_entries f bytes t i n ≡ 0
unfolding sum_entries OneEntry
sum_zero f t i zero f0 one h k = refl
sum_zero f t i (suc n) f0 one h k =
    let first : f (entry_of bytes t i) ≡ 0 = ap f (one i h (omega arith)) ∙ f0 in
    omega (arith, first, sum_zero f t (i + 1) n f0 one (omega arith) (omega arith))

sum_one :
    (f : ℕ → ℕ) (t n : ℕ)
    → f 0 ≡ 0
    → OneEntry t
    → n < num_pte_entries
    → sum_entries f bytes t 0 (suc n) ≡ f (entry_of bytes t 0)
unfolding sum_entries
sum_one f t n f0 one h = omega (arith, sum_zero f t 1 n f0 one (omega arith) (omega arith))

pub one_pages :
    (l t : ℕ)
    → OneEntry t
    → vms_pte_valid (entry_of bytes t 0) ≡ true
    → pages (suc l) bytes t ≡ suc (pages l bytes (next (entry_of bytes t 0)))
unfolding pages vms_pte_valid
one_pages l t one v =
    sum_one (λ e. weigh (vms_pte_valid e) (pages l bytes (next e))) t 511 refl one (omega arith)
    ∙ ap (λ b. weigh b (pages l bytes (next (entry_of bytes t 0)))) v

pub root_zero : OneEntry 8192
root_zero = one_entry 8192 (λ j lo up. ground arith)

pub middle_zero : OneEntry 12288
middle_zero = one_entry 12288 (λ j lo up. ground arith)

low_zero : OneEntry 16384
low_zero = one_entry 16384 (λ j lo up. ground arith)

pub entry₂ : next (entry_of bytes 8192 0) ≡ 12288
unfolding load_bytes vms_ppn_to_page vms_pte_get_ppn
entry₂ = refl

pub entry₁ : next (entry_of bytes 12288 0) ≡ 16384
unfolding load_bytes vms_ppn_to_page vms_pte_get_ppn
entry₁ = refl

pub entry₀ : next (entry_of bytes 16384 0) ≡ 20480
unfolding load_bytes vms_ppn_to_page vms_pte_get_ppn
entry₀ = refl

pub machine-Held : (j : ℕ) → 8192 ≤ j → j < 24576 → Held machine j
machine-Held j lo up = record { taken = λ k l i. ground arith }

pub machine-used : used machine ≡ 5
unfolding count_allocated
machine-used = refl

pub root_valid : vms_pte_valid (entry_of bytes 8192 0) ≡ true
unfolding load_bytes vms_pte_valid
root_valid = refl

pub middle_valid : vms_pte_valid (entry_of bytes 12288 0) ≡ true
unfolding load_bytes vms_pte_valid
middle_valid = refl

low_valid : vms_pte_valid (entry_of bytes 16384 0) ≡ true
unfolding load_bytes vms_pte_valid
low_valid = refl

machine-pages : pages 3 bytes 8192 ≡ 3
machine-pages =
    one_pages 2 8192 root_zero root_valid
    ∙ ap (λ t. suc (pages 2 bytes t)) entry₂
    ∙ ap suc (one_pages 1 12288 middle_zero middle_valid)
    ∙ ap (λ t. suc (suc (pages 1 bytes t))) entry₁
    ∙ ap (λ n. suc (suc n)) (one_pages 0 16384 low_zero low_valid)
    ∙ no_pages (next (entry_of bytes 16384 0))
  where
    no_pages : (t : ℕ) → suc (suc (suc (pages 0 bytes t))) ≡ 3
    no_pages t = unfold pages in refl

machine-Space : Space machine
machine-Space = record {
  ok = record { aligned = refl; fits = omega arith; bytes = λ j. ground arith };
  tree =
      one_Within (Held machine) 2 8192 root_zero
        (λ j i. machine-Held j (omega (arith, i.0)) (omega (arith, i.1)))
        (subst (Within (Held machine) 2 bytes) (sym entry₂) (
          one_Within (Held machine) 1 12288 middle_zero
            (λ j i. machine-Held j (omega (arith, i.0)) (omega (arith, i.1)))
            (subst (Within (Held machine) 1 bytes) (sym entry₁) (
              one_Within (Held machine) 0 16384 low_zero
                (λ j i. machine-Held j (omega (arith, i.0)) (omega (arith, i.1)))
                (subst (Within (Held machine) 0 bytes) (sym entry₀)
                  (λ j i. machine-Held j (omega (arith, i.0)) (omega (arith, i.1))))))));
  room = omega (arith, machine-used, machine-pages);
}

pub zero-Readable : Readable machine 0
zero-Readable = record { route = IsMapped-Route machine 0 machine-IsMapped; fits = omega arith }

zero-Writable : Writable machine 0
unfolding entry_at next_table vms_page_table_pte_entry vms_page_table_pte_entry_from_index
zero-Writable = record { readable = zero-Readable; writes = machine-IsMapped.writes }

vms_fork_copy-CopyOf_example :
    (child : ℕ) × (m' : Machine) × (vms_fork_copy machine ≡ done child m')
    × CopyOf 3 m'.bytes 8192 child
    × Within (λ j. Held m' j × Fresh machine j) 3 m'.bytes child
    × (used m' ≡ used machine + suc (pages 3 bytes 8192))
    × Extends (λ j. Unit {0}) machine m'
    × (child % page_size ≡ 0)
vms_fork_copy-CopyOf_example = vms_fork_copy-CopyOf machine machine-Space

vms_fork_copy-vms_read_example :
    (child : ℕ) × (m' : Machine) × (s : Machine) × (x : ℕ) × (vms_fork_copy machine ≡ done child m')
    × (vms_set_root_page_table child m' ≡ done tt s)
    × (vms_read 0 machine ≡ done x machine)
    × (vms_read 0 m' ≡ done x m')
    × (vms_read 0 s ≡ done x s)
vms_fork_copy-vms_read_example = vms_fork_copy-vms_read machine machine-Space 0 zero-Readable

vms_fork_copy-isolated_example :
    (child : ℕ) × (m' : Machine) × (x : ℕ) × (vms_fork_copy machine ≡ done child m')
    × (vms_read 0 machine ≡ done x machine)
    × ((s : Machine) × (s₁ : Machine) × (s₂ : Machine) × (vms_set_root_page_table child m'
          ≡ done tt s)
        × (vms_write 0 77 s ≡ done tt s₁)
        × (vms_set_root_page_table 8192 s₁ ≡ done tt s₂)
        × (vms_read 0 s₂ ≡ done x s₂))
    × ((t₁ : Machine) × (t₂ : Machine) × (vms_write 0 77 m' ≡ done tt t₁)
        × (vms_set_root_page_table child t₁ ≡ done tt t₂)
        × (vms_read 0 t₂ ≡ done x t₂))
vms_fork_copy-isolated_example =
    vms_fork_copy-isolated machine machine-Space refl 0 0 77 zero-Writable zero-Readable
