-- ===== src/Vms/Copy/Whole.antt =====
-- vms/src/vms.c, `vms_fork_copy`: the nested loops and the whole call.
use yep.Common.{
  ℕ, zero, suc, ◌+◌, ◌*◌, ◌%◌, ◌≤◌, ◌<◌, ◌≡◌, refl, sym, subst, ap, ◌∙◌, ◌⊎◌, true, false, arith,
  Bool, if◌then◌else◌, Bool-cases, inl, inr,
}
use yep.Vms.Pte.{vms_pte_valid}
use yep.Vms.Machine.{Machine, M, done, pure, then_run, page_size, max_pages}
use yep.Vms.PageTable.{vms_page_table_pte_entry_from_index}
use yep.Vms.Mmu.{vms_get_root_page_table}
use yep.Vms.Fork.{num_pte_entries, each_valid, copy_entry, vms_fork_copy}
use yep.Vms.Copy.Memory.{
  InPage, Out, Held, Fresh, Ok, used, Extends, Held-Extends, Extends-refl, load_bytes-same,
}
use yep.Vms.Copy.Tree.{
  entry_of, next, Within, CopyOf, pages, sum_entries, weigh, pages-same, Within-same,
}
use yep.Vms.Copy.Page.{filled}
use yep.Vms.Copy.Step.{copy_level, Shared, Ready, Copied, Copies, new_child}
use yep.Vms.Copy.Loop.{Entry, Round, parent_entry}
use yep.Vms.Copy.Round.{copy_entry-Round, shut-Round}

module _ (l : ℕ) (m₀ : Machine) (p c : ℕ) (r : Ready (suc l) m₀ p c) (ih : Copies l) where
  weight : ℕ → ℕ
  weight e = weigh (vms_pte_valid e) (pages l m₀.bytes (next e))

  -- What an entry counts for is as it was when the loop began.
  weight_now :
      (m : Machine) (i : ℕ)
      → Extends (Out c page_size) m₀ m
      → i < num_pte_entries
      → vms_pte_valid (entry_of m.bytes p i) ≡ true
      → weight (entry_of m₀.bytes p i) ≡ suc (pages l m.bytes (next (entry_of m.bytes p i)))
  unfolding weight
  weight_now m i x h v =
      let e = parent_entry l m₀ p c r m₀ m (Extends-refl r.ok) (λ j k. x.kept j k.0 k.1) i h in
      let v₀ = ap vms_pte_valid (sym e) ∙ v in
      let now =
        pages-same (Shared m₀ c) l m₀.bytes m.bytes (next (entry_of m₀.bytes p i)) (r.tree.1 i h v₀)
          (λ j k. x.kept j k.0 k.1) in
      ap (λ b. weigh b (pages l m₀.bytes (next (entry_of m₀.bytes p i)))) v₀
      ∙ ap suc (sym now ∙ ap (λ z. pages l m.bytes (next z)) (sym e))

  weight_shut :
      (m : Machine) (i : ℕ)
      → Extends (Out c page_size) m₀ m
      → i < num_pte_entries
      → vms_pte_valid (entry_of m.bytes p i) ≡ false
      → weight (entry_of m₀.bytes p i) ≡ 0
  unfolding weight
  weight_shut m i x h v =
      let e = parent_entry l m₀ p c r m₀ m (Extends-refl r.ok) (λ j k. x.kept j k.0 k.1) i h in
      ap (λ b. weigh b (pages l m₀.bytes (next (entry_of m₀.bytes p i))))
        (ap vms_pte_valid (sym e) ∙ v)

  each_valid-Round :
      (n i : ℕ) (m : Machine)
      → i + n ≡ num_pte_entries
      → Round l m₀ m p c i
      → used m + sum_entries weight m₀.bytes p i n ≤ max_pages
      → (m' : Machine) × (each_valid (copy_entry (copy_level l)) i n p c m ≡ done tt m')
        × Round l m₀ m' p c num_pte_entries
        × (used m' ≡ used m + sum_entries weight m₀.bytes p i n)
  unfolding each_valid sum_entries vms_page_table_pte_entry_from_index
  each_valid-Round zero i m eq round room =
      let same : i ≡ num_pte_entries = omega (arith, eq) in
      (m, refl, subst (Round l m₀ m p c) same round, omega arith)
  each_valid-Round (suc n) i m eq round room =
      let body = copy_entry (copy_level l) in
      let rest : Unit {0} → M (Unit {0}) = λ _ s. each_valid body (i + 1) n p c s in
      let h : i < num_pte_entries = omega (arith, eq) in
      let turn : Bool → M (Unit {0}) = λ b. if b then body (p + 8 * i) (c + 8 * i) else pure tt in
      elim (Bool-cases (vms_pte_valid (entry_of m.bytes p i))) [
        | inl v ↦
            let w = weight_now m i round.extends h v in
            let (m₁, runs, round₁, count) =
              copy_entry-Round l m₀ p c r ih m i h v round (omega (arith, w, room)) in
            let (m', runs', round', count') =
              each_valid-Round n (i + 1) m₁ (omega (arith, eq)) round₁
                (omega (arith, w, count, room)) in
            (
              m',
              ap (λ b. then_run (turn b m) rest) v ∙ ap (λ z. then_run z rest) runs ∙ runs',
              round',
              omega (arith, w, count, count'),
            )
        | inr v ↦
            let w = weight_shut m i round.extends h v in
            let (m', runs', round', count') =
              each_valid-Round n (i + 1) m (omega (arith, eq)) (shut-Round l m₀ p c r m i h v round)
                (omega (arith, w, room)) in
            (m', ap (λ b. then_run (turn b m) rest) v ∙ runs', round', omega (arith, w, count'))
      ]

  first_Round : Round l m₀ m₀ p c 0
  first_Round = record {
    extends = Extends-refl r.ok;
    before = λ k h. absurd (omega arith);
    after = λ k lo up. load_bytes-same 8 (p + 8 * k) (c + 8 * k) m₀.bytes m₀.bytes (λ o h.
        ap m₀.bytes (omega arith) ∙ r.same (8 * k + o) (omega arith) ∙ ap m₀.bytes (omega arith));
  }

  level-Copied :
      (m' : Machine) × (copy_level (suc l) p c m₀ ≡ done tt m') × Copied (suc l) m₀ m' p c
  unfolding weight pages
  level-Copied =
      let (m', runs, round, count) =
        each_valid-Round num_pte_entries 0 m₀ refl first_Round r.room in
      (
        m',
        runs,
        record {
          extends = round.extends;
          counted = count;
          copy = λ i h. let e = round.before i h in (e.shut, λ v. (e.flags v, e.copy v));
          fresh = (
            λ j i. (Held-Extends round.extends (r.held j i), inl i),
            λ i h v.
                let e = round.before i h in
                Within-same (λ j. Held m' j × Fresh m₀ j)
                  (λ j. Held m' j × (InPage c j ⊎ Fresh m₀ j)) l m'.bytes m'.bytes
                  (next (entry_of m'.bytes c i)) (e.fresh (opened m' i e v)) (λ j k. (k.0, inr k.1))
                  (λ j k. refl),
          );
        },
      )
    where
      opened :
          (m' : Machine) (i : ℕ)
          → Entry l m₀ m' p c i
          → vms_pte_valid (entry_of m'.bytes c i) ≡ true
          → vms_pte_valid (entry_of m'.bytes p i) ≡ true
      opened m' i e v = elim (Bool-cases (vms_pte_valid (entry_of m'.bytes p i))) [
        | inl w ↦ w
        | inr w ↦ ap vms_pte_valid (sym (e.shut w)) ∙ v
      ]

pub copy_level-Copied : (l : ℕ) → Copies l
unfolding pages
copy_level-Copied zero m p c r = (
  m,
  refl,
  record {
    extends = Extends-refl r.ok;
    counted = omega arith;
    copy = r.same;
    fresh = λ j i. (r.held j i, inl i);
  },
)
copy_level-Copied (suc l) m p c r = level-Copied l m p c r (copy_level-Copied l)

-- An address space that can be copied: three levels of tables below the root, all on pages in use,
-- and as many pages that are not in use as the tables and pages of the space.
pub record Space (m : Machine) : Type 0 where
  pub ok : Ok m
  pub tree : Within (Held m) 3 m.bytes m.root
  pub room : used m + suc (pages 3 m.bytes m.root) ≤ max_pages

-- `vms_fork_copy` of an address space that can be copied returns the root of a copy: an entry of the
-- copy has the flags of the parent's entry and leads to a copy of the parent's page, down to the
-- bytes of the pages. The copy's root is aligned, the copy lies on pages that were not in use, and
-- with it as many more pages are in use as the parent has tables and pages. No byte has changed that
-- was outside the region or in a page in use, and none in a page that is still not in use; nor have
-- the root and the counters of the pages.
pub vms_fork_copy-CopyOf :
    (m : Machine)
    → Space m
    → (child : ℕ) × (m' : Machine) × (vms_fork_copy m ≡ done child m')
      × CopyOf 3 m'.bytes m.root child
      × Within (λ j. Held m' j × Fresh m j) 3 m'.bytes child
      × (used m' ≡ used m + suc (pages 3 m.bytes m.root))
      × Extends (λ j. Unit {0}) m m'
      × (child % page_size ≡ 0)
unfolding vms_fork_copy vms_get_root_page_table
vms_fork_copy-CopyOf m s =
    let (child, a, n, m', ch) = new_child 3 (copy_level-Copied 3) m m.root s.ok s.tree s.room in
    let second : ℕ → Unit {0} → M ℕ = λ page _. pure page in
    let first : ℕ → M ℕ =
      λ page k. then_run (copy_level 3 m.root page (filled page m.root k)) (second page) in
    (
      child,
      m',
      ap (λ x. then_run x first) ch.page.runs ∙ ap (λ x. then_run x (second child)) ch.runs,
      ch.copy,
      ch.fresh,
      ch.counted,
      ch.extends,
      ch.page.aligned,
    )
