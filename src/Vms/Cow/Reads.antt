-- ===== src/Vms/Cow/Reads.antt =====
-- vms/src: what parent and child read after `vms_fork_copy_on_write`.
use yep.Common.{ℕ, ◌+◌, ◌%◌, ◌^◌, ◌<◌, ◌≡◌, sym, ap, ◌∙◌, true, false, arith, Bool-cases, inl, inr}
use yep.Vms.Pte.{vms_pte_valid, vms_pte_read}
use yep.Vms.Machine.{Machine, done}
use yep.Vms.PageTable.{vms_page_table_index, vms_ppn_to_page}
use yep.Vms.Mmu.{should_generate_fault, vms_set_root_page_table, vms_read}
use yep.Vms.Fork.{vms_fork_copy_on_write}
use yep.Vms.Entry.{Fields, fields}
use yep.Vms.Access.{physical}
use yep.Vms.Copy.Memory.{load_bytes-same}
use yep.Vms.Copy.Tree.{entry_of, next, entry_of-same}
use yep.Vms.Copy.Route.{
  entry₂, entry₁, entry₀, Route, vms_read-Route, physical-next, index_low, fault-valid, fault-same,
}
use yep.Vms.Copy.Isolated.{Readable, word_at, set_root-done}
use yep.Vms.Cow.Entries.{shares, cow}
use yep.Vms.Cow.Space.{CowOf, Tree}
use yep.Vms.Cow.Step.{Own}
use yep.Vms.Cow.Whole.{CowSpace, vms_fork_copy_on_write-CowOf}

cow-keeps :
    (f : Fields) → ((cow f).valid ≡ f.valid) × ((cow f).read ≡ f.read) × ((cow f).ppn ≡ f.ppn)
cow-keeps f = elim (Bool-cases (shares f)) [
  | inl h ↦ (ground (arith, h), ground (arith, h), ground (arith, h))
  | inr h ↦ (ground (arith, h), ground (arith, h), ground (arith, h))
]

-- An entry that the fork has made is read as before.
low_entry :
    (e e' : ℕ)
    → fields e' ≡ cow (fields e)
    → vms_pte_valid e ≡ true
    → vms_pte_read e ≡ true
    → (should_generate_fault 0 e' ≡ false) × (vms_pte_read e' ≡ true) × (next e' ≡ next e)
unfolding fields should_generate_fault
low_entry e e' h v reads =
    let (valid, read, ppn) = cow-keeps (fields e) in
    let v' : vms_pte_valid e' ≡ true = ap (λ (f : Fields). f.valid) h ∙ valid ∙ v in
    let r' : vms_pte_read e' ≡ true = ap (λ (f : Fields). f.read) h ∙ read ∙ reads in
    (
      ground (arith, v', r'),
      r',
      ap (λ (f : Fields). vms_ppn_to_page f.ppn) h ∙ ap vms_ppn_to_page ppn,
    )

-- Another space reads a word as `m` does, if its three entries allow it and lead to the same bytes.
word_read :
    (m s : Machine) (va : ℕ)
    → should_generate_fault 2 (entry₂ s.bytes s.root va) ≡ false
    → should_generate_fault 1 (entry₁ s.bytes s.root va) ≡ false
    → (should_generate_fault 0 (entry₀ s.bytes s.root va) ≡ false)
      × (vms_pte_read (entry₀ s.bytes s.root va) ≡ true)
      × (next (entry₀ s.bytes s.root va) ≡ next (entry₀ m.bytes m.root va))
    → ((o : ℕ) → o < 4 → s.bytes (physical m va + o) ≡ m.bytes (physical m va + o))
    → vms_read va s ≡ done (word_at m va) s
word_read m s va high middle low same =
    let place : physical s va ≡ physical m va =
      physical-next s va ∙ ap (λ p. p + va % 2 ^ 12) low.2 ∙ sym (physical-next m va) in
    vms_read-Route s va (record { high = high; middle = middle; low = low.0; reads = low.1 })
    ∙ ap (λ x. done x s)
        (load_bytes-same 4 (physical m va) (physical s va) m.bytes s.bytes
          (λ o h. ap (λ p. s.bytes (p + o)) place ∙ same o h))

module _ (T : ℕ → Type 0) (m m' : Machine) (child va : ℕ) (tree : Tree T (Own T m) 2 m.bytes m.root)
    (kept : (j : ℕ) → Own T m j → m'.bytes j ≡ m.bytes j)
    (copy : CowOf 2 m.bytes m'.bytes m.root child) (r : Route m.bytes m.root va)
    (word : (o : ℕ) → o < 4 → Own T m (physical m va + o)) where
  parent_read : m'.root ≡ m.root → vms_read va m' ≡ done (word_at m va) m'
  parent_read root =
      let h₂ = index_low va 2 (omega arith) in
      let h₁ = index_low va 1 (omega arith) in
      let h₀ = index_low va 0 (omega arith) in
      let v₂ = fault-valid 2 _ r.high in
      let v₁ = fault-valid 1 _ r.middle in
      let c₁ = ((copy (vms_page_table_index va 2) h₂).1 v₂).1 in
      let c₀ = ((c₁ (vms_page_table_index va 1) h₁).1 v₁).1 in
      let t₁ = tree.1 (vms_page_table_index va 2) h₂ v₂ in
      let e₂ : entry₂ m'.bytes m'.root va ≡ entry₂ m.bytes m.root va =
        ap (λ t. entry₂ m'.bytes t va) root
        ∙ entry_of-same m.bytes m'.bytes m.root (vms_page_table_index va 2) h₂
            (λ j i. kept j (tree.0 j i)) in
      let e₁ : entry₁ m'.bytes m'.root va ≡ entry₁ m.bytes m.root va =
        ap (λ e. entry_of m'.bytes (next e) (vms_page_table_index va 1)) e₂
        ∙ entry_of-same m.bytes m'.bytes (next (entry₂ m.bytes m.root va))
            (vms_page_table_index va 1) h₁ (λ j i. kept j (t₁.0 j i)) in
      let e₀ : fields (entry₀ m'.bytes m'.root va) ≡ cow (fields (entry₀ m.bytes m.root va)) =
        ap (λ e. fields (entry_of m'.bytes (next e) (vms_page_table_index va 0))) e₁
        ∙ (c₀ (vms_page_table_index va 0) h₀).0 in
      word_read m m' va (ap (should_generate_fault 2) e₂ ∙ r.high)
        (ap (should_generate_fault 1) e₁ ∙ r.middle)
        (low_entry (entry₀ m.bytes m.root va) (entry₀ m'.bytes m'.root va) e₀
          (fault-valid 0 _ r.low) r.reads)
        (λ o h. kept (physical m va + o) (word o h))

  child_read :
      vms_read va (record m' { root = child }) ≡ done (word_at m va) (record m' { root = child })
  child_read =
      let (flags₂, c₁) =
        (copy (vms_page_table_index va 2) (index_low va 2 (omega arith))).1
          (fault-valid 2 _ r.high) in
      let (flags₁, c₀) =
        (c₁ (vms_page_table_index va 1) (index_low va 1 (omega arith))).1
          (fault-valid 1 _ r.middle) in
      let e₀ = (c₀ (vms_page_table_index va 0) (index_low va 0 (omega arith))).1 in
      word_read m (record m' { root = child }) va (fault-same 2 _ _ flags₂ ∙ r.high)
        (fault-same 1 _ _ flags₁ ∙ r.middle)
        (low_entry (entry₀ m.bytes m.root va) (entry₀ m'.bytes child va) e₀ (fault-valid 0 _ r.low)
          r.reads)
        (λ o h. kept (physical m va + o) (word o h))

-- After `vms_fork_copy_on_write` of an address space that can be forked, a word that lies in one page,
-- in memory in use outside the tables of level 0, at an address that is mapped with permission to
-- read, reads the same as before, through the root of the parent and, when that is set, through the
-- root that the fork has returned. Permission to write is not needed.
pub vms_fork_copy_on_write-vms_read :
    (T : ℕ → Type 0) (m : Machine)
    → CowSpace T m
    → (va : ℕ) → Readable m va
    → ((o : ℕ) → o < 4 → Own T m (physical m va + o))
    → (child : ℕ) × (m' : Machine) × (s : Machine) × (x : ℕ) × (vms_fork_copy_on_write m
        ≡ done child m')
      × (vms_set_root_page_table child m' ≡ done tt s)
      × (vms_read va m ≡ done x m)
      × (vms_read va m' ≡ done x m')
      × (vms_read va s ≡ done x s)
vms_fork_copy_on_write-vms_read T m sp va w word =
    let (child, m', runs, copy, fresh, count, x, aligned) = vms_fork_copy_on_write-CowOf T m sp in
    let kept : (j : ℕ) → Own T m j → m'.bytes j ≡ m.bytes j = λ j h. x.kept j h.0 tt h.1 in
    (
      child,
      m',
      record m' { root = child },
      word_at m va,
      runs,
      set_root-done m' child aligned,
      vms_read-Route m va w.route,
      parent_read T m m' child va sp.tree kept copy w.route word x.root,
      child_read T m m' child va sp.tree kept copy w.route word,
    )
