-- ===== src/Vms/Cow/Loop.antt =====
-- vms/src/vms.c, `recursive_cow`: the loop over the entries of a table above level 0.
use yep.Common.{
  ℕ, suc, ◌+◌, ◌*◌, ◌≤◌, ◌<◌, ◌≡◌, ◌≢◌, sym, subst, ap, ◌∙◌, Bool, true, false, arith, ltb,
  Bool-cases, inl, inr,
}
use yep.Vms.Pte.{vms_pte_valid, vms_pte_set_ppn}
use yep.Vms.Machine.{Machine, M, done, then_run, page_size}
use yep.Vms.PageTable.{vms_page_to_ppn}
use yep.Vms.Fork.{num_pte_entries, cow_node, recursive_cow, set_all_bits}
use yep.Vms.Copy.Memory.{InPage, Out, Held, Fresh, Held-Fresh, load_bytes-same}
use yep.Vms.Copy.Idle.{SameFlags}
use yep.Vms.Copy.Tree.{entry_of, next, Within, entry_of-same, Within-same}
use yep.Vms.Copy.Store.{stored, Out-or-InPage, Out-entry}
use yep.Vms.Cow.Space.{Off, Forks, Held-Forks, Tree, CowOf}
use yep.Vms.Cow.Upper.{CowOf-later, Tree-same}
use yep.Vms.Cow.Step.{Upper, Own, Ready, Twin}

-- The entry `k` of the table at `c` is a copy on write of that of the table at `p` in `m₀`, on pages
-- that `m₀` has free.
pub record Entry (T : ℕ → Type 0) (l : ℕ) (m₀ m : Machine) (p c k : ℕ) : Type 0 where
  pub shut :
      vms_pte_valid (entry_of m₀.bytes p k) ≡ false → entry_of m.bytes c k ≡ entry_of m₀.bytes p k
  pub flags :
      vms_pte_valid (entry_of m₀.bytes p k) ≡ true
      → SameFlags (entry_of m₀.bytes p k) (entry_of m.bytes c k)
  pub copy :
      vms_pte_valid (entry_of m₀.bytes p k) ≡ true
      → CowOf l m₀.bytes m.bytes (next (entry_of m₀.bytes p k)) (next (entry_of m.bytes c k))
  pub fresh :
      vms_pte_valid (entry_of m₀.bytes p k) ≡ true
      → Within (λ j. Held m j × Fresh m₀ j) l m.bytes (next (entry_of m.bytes c k))

-- Before the round for entry `i`.
pub record Round (T : ℕ → Type 0) (l : ℕ) (m₀ m : Machine) (p c i : ℕ) : Type 0 where
  pub forks : Forks T (Out c page_size) m₀ m
  pub before : (k : ℕ) → k < i → Entry T l m₀ m p c k
  pub after : (k : ℕ) → i ≤ k → k < num_pte_entries → entry_of m.bytes c k ≡ entry_of m₀.bytes p k

module _ (T : ℕ → Type 0) (l : ℕ) (m₀ : Machine) (p c : ℕ) (r : Ready T (suc l) m₀ p c) where
  pub parent_entry :
      (m : Machine)
      → Forks T (Out c page_size) m₀ m
      → (k : ℕ) → k < num_pte_entries
      → entry_of m.bytes p k ≡ entry_of m₀.bytes p k
  parent_entry m x k h =
      entry_of-same m₀.bytes m.bytes p k h (λ j i. let u = r.tree.0 j i in x.kept j u.0 u.1 u.2)

  pub parent-Tree :
      (m : Machine)
      → Forks T (Out c page_size) m₀ m
      → (i : ℕ) → i < num_pte_entries
      → vms_pte_valid (entry_of m₀.bytes p i) ≡ true
      → Tree T (Own T m) l m.bytes (next (entry_of m₀.bytes p i))
  parent-Tree m x i h v =
      Tree-same T (Upper T m₀ c) (Own T m) l m₀.bytes m.bytes (next (entry_of m₀.bytes p i))
        (r.tree.1 i h v) (λ j u. (Held-Forks x u.0, u.2)) (λ j u. x.kept j u.0 u.1 u.2)

  pub Fresh-Off : (j : ℕ) → Fresh m₀ j → Off T j
  Fresh-Off j f t h = elim (Out-or-InPage t j) [
    | inl o ↦ o
    | inr i ↦ absurd (Held-Fresh (r.leaves.held t h j i) f)
  ]

  pub Fresh-Out : (j : ℕ) → Fresh m₀ j → Out c page_size j
  Fresh-Out j f = elim (Out-or-InPage c j) [
    | inl o ↦ o
    | inr i ↦ absurd (Held-Fresh (r.held j i) f)
  ]

  pub leaf-Out : (t : ℕ) → T t → (j : ℕ) → InPage t j → Out c page_size j
  leaf-Out t h j i = elim (Out-or-InPage c j) [
    | inl o ↦ o
    | inr k ↦ elim (r.off j k t h) [
      | inl a ↦ absurd (omega (arith, a, i.0))
      | inr a ↦ absurd (omega (arith, a, i.1))
    ]
  ]

  -- A change of one other entry keeps what is said of an entry.
  pub Entry-kept :
      (m m' : Machine) (i k : ℕ)
      → i < num_pte_entries
      → k < num_pte_entries
      → i ≢ k
      → Forks T (Out c page_size) m₀ m
      → Forks T (Out (c + 8 * i) 8) m m'
      → Entry T l m₀ m p c k
      → Entry T l m₀ m' p c k
  Entry-kept m m' i k hi hk ne x y e =
      let child : (j : ℕ) → Held m j × Fresh m₀ j → m'.bytes j ≡ m.bytes j =
        λ j h. y.kept j h.0 (Out-entry c i j hi (Fresh-Out j h.1)) (Fresh-Off j h.1) in
      let ec : entry_of m'.bytes c k ≡ entry_of m.bytes c k =
        load_bytes-same 8 (c + 8 * k) (c + 8 * k) m.bytes m'.bytes (λ o h.
          y.kept (c + 8 * k + o) (Held-Forks x (r.held (c + 8 * k + o) (omega arith, omega arith)))
            (apart o h) (r.off (c + 8 * k + o) (omega arith, omega arith))) in
      record {
        shut = λ v. ec ∙ e.shut v;
        flags = λ v. subst (SameFlags (entry_of m₀.bytes p k)) (sym ec) (e.flags v);
        copy = λ v.
            subst (λ z. CowOf l m₀.bytes m'.bytes (next (entry_of m₀.bytes p k)) (next z)) (sym ec)
              (CowOf-later T (Upper T m₀ c) (λ j. Held m j × Fresh m₀ j) l m₀.bytes m.bytes m'.bytes
                (next (entry_of m₀.bytes p k)) (next (entry_of m.bytes c k)) (r.tree.1 k hk v)
                (e.fresh v) child y.leaf (e.copy v));
        fresh = λ v.
            subst (λ z. Within (λ j. Held m' j × Fresh m₀ j) l m'.bytes (next z)) (sym ec)
              (Within-same (λ j. Held m j × Fresh m₀ j) (λ j. Held m' j × Fresh m₀ j) l m.bytes
                m'.bytes (next (entry_of m.bytes c k)) (e.fresh v) (λ j h. (Held-Forks y h.0, h.1))
                child);
      }
    where
      apart : (o : ℕ) → o < 8 → Out (c + 8 * i) 8 (c + 8 * k + o)
      apart o h = elim (Bool-cases (ltb i k)) [
        | inl e ↦ let less : i < k = ground (arith, e) in inr (omega arith)
        | inr e ↦ let less : k < i = ground (arith, e) in inl (omega arith)
      ]

  -- The run of one round, from the runs of its calls.
  pub cow_node-runs :
      (m m₃ : Machine) (i child : ℕ) (a : ℕ → Bool) (n ppn : ℕ)
      → Twin T l m (next (entry_of m.bytes p i)) child a n m₃
      → vms_page_to_ppn child m₃ ≡ done ppn m₃
      → (m₄ : Machine) → m₄ ≡ stored (c + 8 * i) (vms_pte_set_ppn (entry_of m₃.bytes c i) ppn) m₃
      → set_all_bits (c + 8 * i) (p + 8 * i) m₄ ≡ done tt m₄
      → cow_node (recursive_cow l) (p + 8 * i) (c + 8 * i) m ≡ done tt m₄
  unfolding cow_node
  cow_node-runs m m₃ i child a n ppn ch number m₄ eq idle =
      let last : ℕ → M (Unit {0}) = λ x s.
        set_all_bits (c + 8 * i) (p + 8 * i)
          (stored (c + 8 * i) (vms_pte_set_ppn (entry_of s.bytes c i) x) s) in
      let third : ℕ → Unit {0} → M (Unit {0}) =
        λ page _ s. then_run (vms_page_to_ppn page s) last in
      let second : ℕ → M (Unit {0}) =
        λ page s. then_run (recursive_cow l (next (entry_of s.bytes p i)) page s) (third page) in
      ap (λ x. then_run x second) ch.page.runs
      ∙ ap (λ x. then_run x (third child)) ch.runs
      ∙ ap (λ x. then_run x last) number
      ∙ ap (set_all_bits (c + 8 * i) (p + 8 * i)) (sym eq)
      ∙ idle
