-- ===== src/Vms/Copy/Loop.antt =====
-- vms/src/vms.c, `vms_fork_copy`: the loop over the entries of a table.
use yep.Common.{
  ℕ, suc, ◌+◌, ◌*◌, ◌≤◌, ◌<◌, ◌≡◌, ◌≢◌, sym, subst, ap, ◌∙◌, Bool, true, false, arith, ltb,
  Bool-cases, inl, inr,
}
use yep.Vms.Pte.{vms_pte_valid, vms_pte_set_ppn}
use yep.Vms.Machine.{Machine, M, done, then_run, page_size}
use yep.Vms.PageTable.{vms_page_to_ppn}
use yep.Vms.Fork.{num_pte_entries, copy_entry, set_all_bits}
use yep.Vms.Copy.Memory.{Out, Held, Fresh, Extends, Held-Fresh, Held-Extends, load_bytes-same}
use yep.Vms.Copy.Idle.{SameFlags}
use yep.Vms.Copy.Tree.{entry_of, next, Within, CopyOf, entry_of-same, Within-same, CopyOf-same}
use yep.Vms.Copy.Page.{filled}
use yep.Vms.Copy.Store.{stored, Out-or-InPage, Out-entry}
use yep.Vms.Copy.Step.{copy_level, Shared, Ready, Twin}

-- The entry `k` of the table at `c` is a copy of that of the table at `p`, on pages that `m₀` has free.
pub record Entry (l : ℕ) (m₀ m : Machine) (p c k : ℕ) : Type 0 where
  pub shut :
      vms_pte_valid (entry_of m.bytes p k) ≡ false → entry_of m.bytes c k ≡ entry_of m.bytes p k
  pub flags :
      vms_pte_valid (entry_of m.bytes p k) ≡ true
      → SameFlags (entry_of m.bytes p k) (entry_of m.bytes c k)
  pub copy :
      vms_pte_valid (entry_of m.bytes p k) ≡ true
      → CopyOf l m.bytes (next (entry_of m.bytes p k)) (next (entry_of m.bytes c k))
  pub fresh :
      vms_pte_valid (entry_of m.bytes p k) ≡ true
      → Within (λ j. Held m j × Fresh m₀ j) l m.bytes (next (entry_of m.bytes c k))

-- Before the round for entry `i`.
pub record Round (l : ℕ) (m₀ m : Machine) (p c i : ℕ) : Type 0 where
  pub extends : Extends (Out c page_size) m₀ m
  pub before : (k : ℕ) → k < i → Entry l m₀ m p c k
  pub after : (k : ℕ) → i ≤ k → k < num_pte_entries → entry_of m.bytes c k ≡ entry_of m.bytes p k

module _ (l : ℕ) (m₀ : Machine) (p c : ℕ) (r : Ready (suc l) m₀ p c) where
  pub parent_tree :
      (m : Machine) → Extends (Out c page_size) m₀ m → Within (Shared m₀ c) (suc l) m.bytes p
  parent_tree m x =
      Within-same (Shared m₀ c) (Shared m₀ c) (suc l) m₀.bytes m.bytes p r.tree (λ j h. h)
        (λ j h. x.kept j h.0 h.1)

  pub parent_entry :
      (m m' : Machine)
      → Extends (Out c page_size) m₀ m
      → ((j : ℕ) → Shared m₀ c j → m'.bytes j ≡ m.bytes j)
      → (k : ℕ) → k < num_pte_entries
      → entry_of m'.bytes p k ≡ entry_of m.bytes p k
  parent_entry m m' x same k h =
      entry_of-same m.bytes m'.bytes p k h (λ j i. same j ((parent_tree m x).0 j i))

  -- A change of one other entry, on pages that are held, keeps what is said of an entry.
  pub Entry-kept :
      (m m' : Machine) (i k : ℕ)
      → i < num_pte_entries
      → k < num_pte_entries
      → i ≢ k
      → Extends (Out c page_size) m₀ m
      → Extends (Out (c + 8 * i) 8) m m'
      → Entry l m₀ m p c k
      → Entry l m₀ m' p c k
  Entry-kept m m' i k hi hk ne x y e =
      let parent : (j : ℕ) → Shared m₀ c j → m'.bytes j ≡ m.bytes j =
        λ j h. y.kept j (Held-Extends x h.0) (Out-entry c i j hi h.1) in
      let child : (j : ℕ) → Held m j × Fresh m₀ j → m'.bytes j ≡ m.bytes j =
        λ j h. y.kept j h.0 (Out-entry c i j hi (outside j h.1)) in
      let ep = parent_entry m m' x parent k hk in
      let ec : entry_of m'.bytes c k ≡ entry_of m.bytes c k =
        load_bytes-same 8 (c + 8 * k) (c + 8 * k) m.bytes m'.bytes (λ o h.
          y.kept (c + 8 * k + o)
            (Held-Extends x (r.held (c + 8 * k + o) (omega arith, omega arith))) (apart o h)) in
      record {
        shut = λ v. ec ∙ e.shut (ap vms_pte_valid (sym ep) ∙ v) ∙ sym ep;
        flags = λ v.
            subst (λ z. SameFlags z (entry_of m'.bytes c k)) (sym ep)
              (subst (SameFlags (entry_of m.bytes p k)) (sym ec)
                (e.flags (ap vms_pte_valid (sym ep) ∙ v)));
        copy = λ v.
            let v' = ap vms_pte_valid (sym ep) ∙ v in
            subst (λ z. CopyOf l m'.bytes (next z) (next (entry_of m'.bytes c k))) (sym ep)
              (subst (λ z. CopyOf l m'.bytes (next (entry_of m.bytes p k)) (next z)) (sym ec)
                (CopyOf-same (Shared m₀ c) (λ j. Held m j × Fresh m₀ j) l m.bytes m'.bytes
                  (next (entry_of m.bytes p k)) (next (entry_of m.bytes c k))
                  ((parent_tree m x).1 k hk v') (e.fresh v') parent child (e.copy v')));
        fresh = λ v.
            let v' = ap vms_pte_valid (sym ep) ∙ v in
            subst (λ z. Within (λ j. Held m' j × Fresh m₀ j) l m'.bytes (next z)) (sym ec)
              (Within-same (λ j. Held m j × Fresh m₀ j) (λ j. Held m' j × Fresh m₀ j) l m.bytes
                m'.bytes (next (entry_of m.bytes c k)) (e.fresh v')
                (λ j h. (Held-Extends y h.0, h.1)) child);
      }
    where
      outside : (j : ℕ) → Fresh m₀ j → Out c page_size j
      outside j f = elim (Out-or-InPage c j) [
        | inl o ↦ o
        | inr i ↦ absurd (Held-Fresh (r.held j i) f)
      ]

      apart : (o : ℕ) → o < 8 → Out (c + 8 * i) 8 (c + 8 * k + o)
      apart o h = elim (Bool-cases (ltb i k)) [
        | inl e ↦ let less : i < k = ground (arith, e) in inr (omega arith)
        | inr e ↦ let less : k < i = ground (arith, e) in inl (omega arith)
      ]

  -- The run of one round, from the runs of its calls.
  pub copy_entry-runs :
      (m m₃ : Machine) (i child : ℕ) (a : ℕ → Bool) (n ppn : ℕ)
      → Twin l m (next (entry_of m.bytes p i)) child a n m₃
      → vms_page_to_ppn child m₃ ≡ done ppn m₃
      → (m₄ : Machine) → m₄ ≡ stored (c + 8 * i) (vms_pte_set_ppn (entry_of m₃.bytes c i) ppn) m₃
      → set_all_bits (c + 8 * i) (p + 8 * i) m₄ ≡ done tt m₄
      → copy_entry (copy_level l) (p + 8 * i) (c + 8 * i) m ≡ done tt m₄
  unfolding copy_entry
  copy_entry-runs m m₃ i child a n ppn ch number m₄ eq idle =
      let last : ℕ → M (Unit {0}) = λ x s.
        set_all_bits (c + 8 * i) (p + 8 * i)
          (stored (c + 8 * i) (vms_pte_set_ppn (entry_of s.bytes c i) x) s) in
      let third : ℕ → Unit {0} → M (Unit {0}) =
        λ page _ s. then_run (vms_page_to_ppn page s) last in
      let second : ℕ → M (Unit {0}) = λ page s.
        then_run
          (copy_level l (next (entry_of s.bytes p i)) page
            (filled page (next (entry_of s.bytes p i)) s))
          (third page) in
      ap (λ x. then_run x second) ch.page.runs
      ∙ ap (λ x. then_run x (third child)) ch.runs
      ∙ ap (λ x. then_run x last) number
      ∙ ap (set_all_bits (c + 8 * i) (p + 8 * i)) (sym eq)
      ∙ idle
