-- ===== src/Vms/Cow/Whole.antt =====
-- vms/src/vms.c: `recursive_cow` at every level, and `vms_fork_copy_on_write`.
use yep.Common.{
  ℕ, zero, suc, ◌+◌, ◌*◌, ◌%◌, ◌≤◌, ◌<◌, ◌≡◌, refl, sym, subst, ap, ◌∙◌, ◌⊎◌, true, false, arith,
  Bool, if◌then◌else◌, Bool-cases, inl, inr,
}
use yep.Vms.Pte.{vms_pte_valid}
use yep.Vms.Machine.{Machine, M, done, pure, then_run, page_size, max_pages}
use yep.Vms.PageTable.{vms_page_table_pte_entry_from_index}
use yep.Vms.Mmu.{vms_get_root_page_table}
use yep.Vms.Fork.{num_pte_entries, each_valid, cow_node, recursive_cow, vms_fork_copy_on_write}
use yep.Vms.Copy.Memory.{InPage, Out, Held, Fresh, Ok, used}
use yep.Vms.Copy.Tree.{entry_of, next, Within, pages, sum_entries, weigh, Within-same}
use yep.Vms.Cow.Space.{Leaves, Forks, Held-Forks, Tree, CowOf}
use yep.Vms.Cow.Upper.{pages-Tree}
use yep.Vms.Cow.Step.{Upper, Own, cow_level, Ready, Cowed, Cows, leaf-Cowed, new_child}
use yep.Vms.Cow.Loop.{Entry, Round, parent_entry}
use yep.Vms.Cow.Round.{cow_node-Round, shut-Round}

module _ (T : ℕ → Type 0) (l : ℕ) (m₀ : Machine) (p c : ℕ) (r : Ready T (suc l) m₀ p c)
    (ih : Cows T l) where
  weight : ℕ → ℕ
  weight e = weigh (vms_pte_valid e) (pages l m₀.bytes (next e))

  -- What an entry counts for is as it was when the loop began.
  weight_now :
      (m : Machine) (i : ℕ)
      → Forks T (Out c page_size) m₀ m
      → i < num_pte_entries
      → vms_pte_valid (entry_of m₀.bytes p i) ≡ true
      → weight (entry_of m₀.bytes p i) ≡ suc (pages l m.bytes (next (entry_of m₀.bytes p i)))
  unfolding weight
  weight_now m i x h v =
      let now =
        pages-Tree T (Upper T m₀ c) l m₀.bytes m.bytes (next (entry_of m₀.bytes p i))
          (r.tree.1 i h v) (λ j u. x.kept j u.0 u.1 u.2) in
      ap (λ b. weigh b (pages l m₀.bytes (next (entry_of m₀.bytes p i)))) v ∙ ap suc (sym now)

  weight_shut :
      (i : ℕ) → vms_pte_valid (entry_of m₀.bytes p i) ≡ false → weight (entry_of m₀.bytes p i) ≡ 0
  unfolding weight
  weight_shut i v = ap (λ b. weigh b (pages l m₀.bytes (next (entry_of m₀.bytes p i)))) v

  each_valid-Round :
      (n i : ℕ) (m : Machine)
      → i + n ≡ num_pte_entries
      → Round T l m₀ m p c i
      → used m + sum_entries weight m₀.bytes p i n ≤ max_pages
      → (m' : Machine) × (each_valid (cow_node (recursive_cow l)) i n p c m ≡ done tt m')
        × Round T l m₀ m' p c num_pte_entries
        × (used m' ≡ used m + sum_entries weight m₀.bytes p i n)
  unfolding each_valid sum_entries vms_page_table_pte_entry_from_index
  each_valid-Round zero i m eq round room =
      let same : i ≡ num_pte_entries = omega (arith, eq) in
      (m, refl, subst (Round T l m₀ m p c) same round, omega arith)
  each_valid-Round (suc n) i m eq round room =
      let body = cow_node (recursive_cow l) in
      let rest : Unit {0} → M (Unit {0}) = λ _ s. each_valid body (i + 1) n p c s in
      let h : i < num_pte_entries = omega (arith, eq) in
      let turn : Bool → M (Unit {0}) = λ b. if b then body (p + 8 * i) (c + 8 * i) else pure tt in
      let e = ap vms_pte_valid (parent_entry T l m₀ p c r m round.forks i h) in
      elim (Bool-cases (vms_pte_valid (entry_of m₀.bytes p i))) [
        | inl v ↦
            let w = weight_now m i round.forks h v in
            let (m₁, runs, round₁, count) =
              cow_node-Round T l m₀ p c r ih m i h v round (omega (arith, w, room)) in
            let (m', runs', round', count') =
              each_valid-Round n (i + 1) m₁ (omega (arith, eq)) round₁
                (omega (arith, w, count, room)) in
            (
              m',
              ap (λ b. then_run (turn b m) rest) (e ∙ v) ∙ ap (λ z. then_run z rest) runs ∙ runs',
              round',
              omega (arith, w, count, count'),
            )
        | inr v ↦
            let w = weight_shut i v in
            let (m', runs', round', count') =
              each_valid-Round n (i + 1) m (omega (arith, eq))
                (shut-Round T l m₀ p c r m i h v round) (omega (arith, w, room)) in
            (
              m',
              ap (λ b. then_run (turn b m) rest) (e ∙ v) ∙ runs',
              round',
              omega (arith, w, count'),
            )
      ]

  first_Round : Round T l m₀ m₀ p c 0
  first_Round = record {
    forks = record {
      ok = r.ok;
      base = refl;
      root = refl;
      grows = λ k h. h;
      kept = λ j h q o. refl;
      leaf = λ t h k small. inl refl;
    };
    before = λ k h. absurd (omega arith);
    after = λ k lo up. r.same k up;
  }

  level-Cowed : (m' : Machine) × (cow_level (suc l) p c m₀ ≡ done tt m') × Cowed T (suc l) m₀ m' p c
  unfolding weight pages
  level-Cowed =
      let (m', runs, round, count) =
        each_valid-Round num_pte_entries 0 m₀ refl first_Round r.room in
      (
        m',
        runs,
        record {
          forks = round.forks;
          counted = count;
          copy = λ i h. let e = round.before i h in (e.shut, λ v. (e.flags v, e.copy v));
          fresh = (
            λ j i. (Held-Forks round.forks (r.held j i), inl i),
            λ i h v.
                let e = round.before i h in
                Within-same (λ j. Held m' j × Fresh m₀ j)
                  (λ j. Held m' j × (InPage c j ⊎ Fresh m₀ j)) l m'.bytes m'.bytes
                  (next (entry_of m'.bytes c i)) (e.fresh (opened m' i e v)) (λ j k. (k.0, inr k.1))
                  (λ j k. refl),
          );
        },
      )
    where
      opened :
          (m' : Machine) (i : ℕ)
          → Entry T l m₀ m' p c i
          → vms_pte_valid (entry_of m'.bytes c i) ≡ true
          → vms_pte_valid (entry_of m₀.bytes p i) ≡ true
      opened m' i e v = elim (Bool-cases (vms_pte_valid (entry_of m₀.bytes p i))) [
        | inl w ↦ w
        | inr w ↦ ap vms_pte_valid (sym (e.shut w)) ∙ v
      ]

pub cow_level-Cowed : (T : ℕ → Type 0) (l : ℕ) → Cows T l
cow_level-Cowed T zero = leaf-Cowed T
cow_level-Cowed T (suc l) = λ m p c r. level-Cowed T l m p c r (cow_level-Cowed T l)

-- An address space that can be forked: `T` says which pages are its tables of level 0; its other
-- tables are on other pages in use, and as many pages are not in use as the space has tables.
pub record CowSpace (T : ℕ → Type 0) (m : Machine) : Type 0 where
  pub ok : Ok m
  pub leaves : Leaves T m
  pub tree : Tree T (Own T m) 2 m.bytes m.root
  pub room : used m + suc (pages 2 m.bytes m.root) ≤ max_pages

-- `vms_fork_copy_on_write` of an address space that can be forked returns the root of a copy on write:
-- above level 0 an entry of the copy has the flags of the parent's entry and leads to a copy of the
-- parent's table; at level 0 both tables have the fields of the parent's old entry, without the write
-- flag and with the custom flag where this is valid and had one of the two. The copy's tables are on
-- pages that were not in use, one for each table of the parent, its root is aligned, and no byte in
-- use outside the parent's tables of level 0 has changed.
pub vms_fork_copy_on_write-CowOf :
    (T : ℕ → Type 0) (m : Machine)
    → CowSpace T m
    → (child : ℕ) × (m' : Machine) × (vms_fork_copy_on_write m ≡ done child m')
      × CowOf 2 m.bytes m'.bytes m.root child
      × Within (λ j. Held m' j × Fresh m j) 2 m'.bytes child
      × (used m' ≡ used m + suc (pages 2 m.bytes m.root))
      × Forks T (λ j. Unit {0}) m m'
      × (child % page_size ≡ 0)
unfolding vms_fork_copy_on_write vms_get_root_page_table
vms_fork_copy_on_write-CowOf T m s =
    let (child, a, n, m', ch) =
      new_child T 2 (cow_level-Cowed T 2) m m.root s.ok s.leaves s.tree s.room in
    let second : ℕ → Unit {0} → M ℕ = λ page _. pure page in
    let first : ℕ → M ℕ = λ page k. then_run (recursive_cow 2 m.root page k) (second page) in
    (
      child,
      m',
      ap (λ x. then_run x first) ch.page.runs ∙ ap (λ x. then_run x (second child)) ch.runs,
      ch.copy,
      ch.fresh,
      ch.counted,
      ch.forks,
      ch.page.aligned,
    )
