-- ===== src/Vms/Cow/Tests.antt =====
-- An address space with one page, on which the theorems of the fork with copy-on-write are applied.
use yep.Common.{
  ℕ, zero, suc, ◌+◌, ◌*◌, ◌%◌, ◌^◌, ◌≤◌, ◌<◌, ◌≡◌, refl, sym, subst, ap, ◌∙◌, true, arith, inl, inr,
}
use yep.Vms.Pte.{vms_pte_valid, vms_pte_get_ppn}
use yep.Vms.Machine.{Machine, done, page_size, max_pages, load_bytes}
use yep.Vms.Pages.{vms_get_page_index}
use yep.Vms.PageTable.{vms_page_table_index, vms_ppn_to_page}
use yep.Vms.Fork.{num_pte_entries, recursive_cow, vms_fork_copy_on_write}
use yep.Vms.Entry.{fields}
use yep.Vms.Tests.{bytes, machine}
use yep.Vms.Copy.Memory.{load_bytes-same}
use yep.Vms.Copy.Tree.{entry_of, next}
use yep.Vms.Cow.Entries.{shares}
use yep.Vms.Copy.Memory.{InPage, Held, Fresh, used}
use yep.Vms.Copy.Tree.{Within, pages}
use yep.Vms.Copy.Tests.{
  OneEntry, root_zero, middle_zero, one_pages, entry₂, entry₁, entry₀, zero-Readable, machine-Held,
  machine-used, root_valid, middle_valid,
}
use yep.Vms.Cow.Space.{Tree, CowOf, Forks}
use yep.Vms.Cow.Step.{Own}
use yep.Vms.Cow.Whole.{CowSpace, vms_fork_copy_on_write-CowOf}
use yep.Vms.Access.{physical}
use yep.Vms.Mmu.{vms_set_root_page_table, vms_read}
use yep.Vms.Copy.Route.{physical-next}
use yep.Vms.Cow.Reads.{vms_fork_copy_on_write-vms_read}
use yep.Vms.Cow.Leaf.{IsLeaf, Forked, recursive_cow-Forked}

-- The table is in page 3 of the region, its entry points to page 4, and the copy goes into page 5.
machine-IsLeaf : IsLeaf machine 16384 24576
unfolding load_bytes vms_get_page_index vms_ppn_to_page vms_pte_get_ppn fields vms_pte_valid
machine-IsLeaf = record {
  ok = record { aligned = refl; fits = omega arith; bytes = λ j. ground arith };
  apart = inl (omega arith);
  inside = λ k h s. go k h s;
}
  where
    go :
        (k : ℕ)
        → k < num_pte_entries
        → shares (fields (entry_of bytes 16384 k)) ≡ true
        → vms_get_page_index machine (next (entry_of bytes 16384 k)) < max_pages
    go zero h s = omega arith
    go (suc k) h s =
        let none : entry_of bytes 16384 (suc k) ≡ 0 =
          load_bytes-same 8 0 (16384 + 8 * suc k) (λ j. 0) bytes (λ o small. ground arith) in
        absurd (ground (arith, s, ap vms_pte_valid none))

recursive_cow-Forked_example :
    (m' : Machine) × (recursive_cow 0 16384 24576 machine ≡ done tt m')
    × Forked machine m' 16384 24576
recursive_cow-Forked_example = recursive_cow-Forked machine 16384 24576 machine-IsLeaf

-- The one table of level 0 of the machine.
abbrev OnLeaf : ℕ → Type 0
OnLeaf t = 16384 ≡ t

one_Tree :
    (l t : ℕ)
    → OneEntry t
    → ((j : ℕ) → InPage t j → Own OnLeaf machine j)
    → Tree OnLeaf (Own OnLeaf machine) l bytes (next (entry_of bytes t 0))
    → Tree OnLeaf (Own OnLeaf machine) (suc l) bytes t
unfolding OneEntry vms_pte_valid
one_Tree l t one c below = (c, λ i h v. go i h v)
  where
    go :
        (i : ℕ)
        → i < num_pte_entries
        → vms_pte_valid (entry_of bytes t i) ≡ true
        → Tree OnLeaf (Own OnLeaf machine) l bytes (next (entry_of bytes t i))
    go zero h v = below
    go (suc i) h v = absurd (ground (arith, v, ap vms_pte_valid (one (suc i) (omega arith) h)))

machine-Own : (j : ℕ) → 8192 ≤ j → j < 16384 → Own OnLeaf machine j
machine-Own j lo up = (machine-Held j lo (omega arith), λ t h. inl (omega (arith, h)))

machine-pages : pages 2 bytes 8192 ≡ 2
machine-pages =
    one_pages 1 8192 root_zero root_valid
    ∙ ap (λ t. suc (pages 1 bytes t)) entry₂
    ∙ ap suc (one_pages 0 12288 middle_zero middle_valid)
    ∙ no_pages (next (entry_of bytes 12288 0))
  where
    no_pages : (t : ℕ) → suc (suc (pages 0 bytes t)) ≡ 2
    no_pages t = unfold pages in refl

machine-CowSpace : CowSpace OnLeaf machine
machine-CowSpace = record {
  ok = machine-IsLeaf.ok;
  leaves = record {
    aligned = λ t h. omega (arith, h);
    held = λ t h j i. machine-Held j (omega (arith, h, i.0)) (omega (arith, h, i.1));
    inside = λ t h k small s.
        subst
          (λ z.
            shares (fields (entry_of bytes z k)) ≡ true
            → vms_get_page_index machine (next (entry_of bytes z k)) < max_pages)
          h (machine-IsLeaf.inside k small) s;
  };
  tree =
      one_Tree 1 8192 root_zero (λ j i. machine-Own j (omega (arith, i.0)) (omega (arith, i.1)))
        (subst (Tree OnLeaf (Own OnLeaf machine) 1 bytes) (sym entry₂) (
          one_Tree 0 12288 middle_zero
            (λ j i. machine-Own j (omega (arith, i.0)) (omega (arith, i.1))) (sym entry₁)));
  room = omega (arith, machine-used, machine-pages);
}

vms_fork_copy_on_write-CowOf_example :
    (child : ℕ) × (m' : Machine) × (vms_fork_copy_on_write machine ≡ done child m')
    × CowOf 2 bytes m'.bytes 8192 child
    × Within (λ j. Held m' j × Fresh machine j) 2 m'.bytes child
    × (used m' ≡ used machine + suc (pages 2 bytes 8192))
    × Forks OnLeaf (λ j. Unit {0}) machine m'
    × (child % page_size ≡ 0)
vms_fork_copy_on_write-CowOf_example = vms_fork_copy_on_write-CowOf OnLeaf machine machine-CowSpace

word_place : physical machine 0 ≡ 20480
unfolding vms_page_table_index
word_place = physical-next machine 0 ∙ ap (λ p. p + 0 % 2 ^ 12) place
  where
    place : next (entry_of bytes (next (entry_of bytes (next (entry_of bytes 8192 0)) 0)) 0) ≡ 20480
    place =
        ap (λ t. next (entry_of bytes (next (entry_of bytes t 0)) 0)) entry₂
        ∙ ap (λ t. next (entry_of bytes t 0)) entry₁
        ∙ entry₀

word_in_page : (o : ℕ) → o < 4 → Own OnLeaf machine (physical machine 0 + o)
word_in_page o h = (
  machine-Held (physical machine 0 + o) (omega (arith, word_place)) (omega (arith, word_place)),
  λ t e. inr (omega (arith, word_place, e)),
)

vms_fork_copy_on_write-vms_read_example :
    (child : ℕ) × (m' : Machine) × (s : Machine) × (x : ℕ) × (vms_fork_copy_on_write machine
      ≡ done child m')
    × (vms_set_root_page_table child m' ≡ done tt s)
    × (vms_read 0 machine ≡ done x machine)
    × (vms_read 0 m' ≡ done x m')
    × (vms_read 0 s ≡ done x s)
vms_fork_copy_on_write-vms_read_example =
    vms_fork_copy_on_write-vms_read OnLeaf machine machine-CowSpace 0 zero-Readable word_in_page
