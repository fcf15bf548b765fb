-- ===== src/Vms/Cow/Entries.antt =====
-- vms/src/vms.c, `recursive_cow` at level 0: one valid entry of the parent's and the child's table.
use yep.Common.{
  ℕ, ◌+◌, ◌%◌, ◌^◌, ◌≤◌, ◌<◌, ◌≡◌, refl, sym, subst, ap, ◌∙◌, ◌⊎◌, Bool, true, false, arith, ◌==◌,
  ◌&&◌, ◌||◌, if◌then◌else◌, Bool-cases, inl, inr, lt→ltb,
}
use yep.Vms.Pte.{
  vms_pte_valid, vms_pte_write, vms_pte_custom, vms_pte_get_ppn, vms_pte_set_ppn,
  vms_pte_write_clear, vms_pte_custom_set,
}
use yep.Vms.Machine.{Machine, M, Run, done, faults, then_run, max_pages, load_bytes}
use yep.Vms.Pages.{vms_get_page_index, in_bounds}
use yep.Vms.Mmu.{set_arr}
use yep.Vms.Fork.{set_all_bits, set_bits_except_write, cow_leaf}
use yep.Vms.Entry.{Fields, fields, fields-set, fields-clear, fields-set_ppn, get_ppn-div}
use yep.Vms.Access.{load_bytes-outside}
use yep.Vms.Copy.Memory.{Out, Ok}
use yep.Vms.Copy.Idle.{set_all_bits_idle}
use yep.Vms.Copy.Tree.{next}
use yep.Vms.Split.Steps.{changed, changed-fields, changed-Ok, changed-kept}

-- Whether the page of an entry is shared by the fork and counted.
abbrev pub shares : Fields → Bool
shares f = f.valid && (f.write || f.custom)

-- What the fork makes of an entry of level 0.
abbrev pub cow : Fields → Fields
cow f = if shares f then record f { write = false; custom = true } else f

-- What an entry adds to the counter of page `q`.
abbrev pub share : Machine → ℕ → ℕ → ℕ
share m q e = if shares (fields e) && (vms_get_page_index m (next e) == q) then 2 else 0

-- The same pages and tables are in use.
pub record SamePages (m m' : Machine) : Type 0 where
  pub ok : Ok m'
  pub base : m'.base ≡ m.base
  pub root : m'.root ≡ m.root
  pub allocated : m'.allocated ≡ m.allocated

-- The entry at `a` is now `cow` of what it was, and the one at `b` is the same but for its other bits.
pub record Marked (a b : ℕ) (m m' : Machine) : Type 0 where
  pub pages : SamePages m m'
  pub parent : fields (load_bytes 8 a m'.bytes) ≡ cow (fields (load_bytes 8 a m.bytes))
  pub child : fields (load_bytes 8 b m'.bytes) ≡ cow (fields (load_bytes 8 a m.bytes))
  pub kept : (j : ℕ) → Out a 8 j → Out b 8 j → m'.bytes j ≡ m.bytes j
  pub arr : (q : ℕ) → m'.arr q ≡ m.arr q + share m q (load_bytes 8 a m.bytes)

changed-other :
    (a b : ℕ) (f : ℕ → ℕ) (m : Machine)
    → (a + 8 ≤ b) ⊎ (b + 8 ≤ a)
    → load_bytes 8 a (changed b f m).bytes ≡ load_bytes 8 a m.bytes
unfolding changed
changed-other a b f m apart = load_bytes-outside 8 a 8 b (f (load_bytes 8 b m.bytes)) m.bytes apart

changed-SamePages : (a : ℕ) (f : ℕ → ℕ) (m : Machine) → Ok m → SamePages m (changed a f m)
changed-SamePages a f m ok = record {
  ok = changed-Ok a f m ok;
  base = unfold changed in refl;
  root = unfold changed in refl;
  allocated = unfold changed in refl;
}

pub SamePages-trans : {m₁ m₂ m₃ : Machine} → SamePages m₁ m₂ → SamePages m₂ m₃ → SamePages m₁ m₃
SamePages-trans x y = record {
  ok = y.ok;
  base = y.base ∙ x.base;
  root = y.root ∙ x.root;
  allocated = y.allocated ∙ x.allocated;
}

swap : {a b : ℕ} → (a + 8 ≤ b) ⊎ (b + 8 ≤ a) → (b + 8 ≤ a) ⊎ (a + 8 ≤ b)
swap (inl h) = inr h
swap (inr h) = inl h

-- Both entries of a pair without the write flag and with the custom flag.
unfoldable guarded : ℕ → Machine → Machine
guarded a m = changed a vms_pte_custom_set (changed a vms_pte_write_clear m)

guarded-fields :
    (a : ℕ) (m : Machine)
    → Ok m
    → fields (load_bytes 8 a (guarded a m).bytes)
      ≡ record (fields (load_bytes 8 a m.bytes)) { write = false; custom = true }
unfolding guarded
guarded-fields a m ok =
    changed-fields a vms_pte_custom_set (λ f. record f { custom = true })
      (changed a vms_pte_write_clear m) (changed-Ok a vms_pte_write_clear m ok)
      (λ e h. (fields-set e).3)
    ∙ ap (λ (f : Fields). record f { custom = true })
        (changed-fields a vms_pte_write_clear (λ f. record f { write = false }) m ok
          (λ e h. (fields-clear e h).2))

guarded-other :
    (a b : ℕ) (m : Machine)
    → (a + 8 ≤ b) ⊎ (b + 8 ≤ a)
    → load_bytes 8 a (guarded b m).bytes ≡ load_bytes 8 a m.bytes
unfolding guarded
guarded-other a b m apart =
    changed-other a b vms_pte_custom_set (changed b vms_pte_write_clear m) apart
    ∙ changed-other a b vms_pte_write_clear m apart

guarded-kept : (a : ℕ) (m : Machine) (j : ℕ) → Out a 8 j → (guarded a m).bytes j ≡ m.bytes j
unfolding guarded
guarded-kept a m j o =
    changed-kept a vms_pte_custom_set (changed a vms_pte_write_clear m) j o
    ∙ changed-kept a vms_pte_write_clear m j o

guarded-SamePages : (a : ℕ) (m : Machine) → Ok m → SamePages m (guarded a m)
unfolding guarded
guarded-SamePages a m ok =
    let x = changed-SamePages a vms_pte_write_clear m ok in
    SamePages-trans x
      (changed-SamePages a vms_pte_custom_set (changed a vms_pte_write_clear m) x.ok)

abbrev counted : ℕ → Machine → Machine
counted i m = record m { arr = λ j. if i == j then m.arr i + 2 else m.arr j }

-- The child's entry with the page number of the parent's.
unfoldable pointed : ℕ → ℕ → Machine → Machine
pointed a b m = changed b (λ e. vms_pte_set_ppn e (vms_pte_get_ppn (load_bytes 8 a m.bytes))) m

module _ (a b : ℕ) (m : Machine) (ok : Ok m) (apart : (a + 8 ≤ b) ⊎ (b + 8 ≤ a))
    (same : fields (load_bytes 8 b m.bytes) ≡ fields (load_bytes 8 a m.bytes)) where
  pointed-parent : load_bytes 8 a (pointed a b m).bytes ≡ load_bytes 8 a m.bytes
  pointed-parent =
      unfold pointed in
      changed-other a b (λ e. vms_pte_set_ppn e (vms_pte_get_ppn (load_bytes 8 a m.bytes))) m apart

  pointed-child : fields (load_bytes 8 b (pointed a b m).bytes) ≡ fields (load_bytes 8 a m.bytes)
  unfolding fields
  pointed-child =
      let e = load_bytes 8 a m.bytes in
      let p = vms_pte_get_ppn e in
      let short : p % 2 ^ 44 ≡ p = omega (arith, get_ppn-div e) in
      let new : fields (load_bytes 8 b (pointed a b m).bytes)
          ≡ record (fields (load_bytes 8 b m.bytes)) { ppn = p % 2 ^ 44 } =
        unfold pointed in
        changed-fields b (λ e. vms_pte_set_ppn e p) (λ f. record f { ppn = p % 2 ^ 44 }) m ok
          (λ e h. fields-set_ppn e p h) in
      new
      ∙ ap (λ (f : Fields). record f { ppn = p % 2 ^ 44 }) same
      ∙ ap (λ x. record (fields e) { ppn = x }) short

  pointed-SamePages : SamePages m (pointed a b m)
  pointed-SamePages =
      unfold pointed in
      changed-SamePages b (λ e. vms_pte_set_ppn e (vms_pte_get_ppn (load_bytes 8 a m.bytes))) m ok

  pointed-kept : (j : ℕ) → Out b 8 j → (pointed a b m).bytes j ≡ m.bytes j
  pointed-kept j o =
      unfold pointed in
      changed-kept b (λ e. vms_pte_set_ppn e (vms_pte_get_ppn (load_bytes 8 a m.bytes))) m j o

  -- The flags are those of the parent already.
  set_bits-idle : set_bits_except_write b a (pointed a b m) ≡ done tt (pointed a b m)
  unfolding set_bits_except_write set_all_bits fields
  set_bits-idle =
      let m₁ = pointed a b m in
      let h : fields (load_bytes 8 a m₁.bytes) ≡ fields (load_bytes 8 b m₁.bytes) =
        ap fields pointed-parent ∙ sym pointed-child in
      set_all_bits_idle b a m₁ pointed-SamePages.ok.bytes (record {
        valid = ap (λ (f : Fields). f.valid) h;
        read = ap (λ (f : Fields). f.read) h;
        write = ap (λ (f : Fields). f.write) h;
        custom = ap (λ (f : Fields). f.custom) h;
      })

  -- What the call leaves, by whether the page is shared.
  unfoldable leaf_after : Bool → Machine
  leaf_after true =
      let m' = guarded b (guarded a (pointed a b m)) in
      counted (vms_get_page_index m (next (load_bytes 8 a m.bytes))) m'
  leaf_after false = pointed a b m

  index-guarded :
      (x : ℕ)
      → vms_get_page_index (guarded b (guarded a (pointed a b m))) x ≡ vms_get_page_index m x
  index-guarded x = unfold guarded pointed changed vms_get_page_index in refl

  cow_leaf-runs :
      vms_pte_valid (load_bytes 8 a m.bytes) ≡ true
      → (shares (fields (load_bytes 8 a m.bytes)) ≡ true
          → vms_get_page_index m (next (load_bytes 8 a m.bytes)) < max_pages)
      → cow_leaf a b m ≡ done tt (leaf_after (shares (fields (load_bytes 8 a m.bytes))))
  unfolding cow_leaf leaf_after
  cow_leaf-runs valid small =
      let e = load_bytes 8 a m.bytes in
      let i = vms_get_page_index m (next e) in
      let m₅ = guarded b (guarded a (pointed a b m)) in
      let page = next (load_bytes 8 a m.bytes) in
      let bump : Machine → M (Unit {0}) = λ t. λ k.
        then_run (in_bounds (vms_get_page_index t page) k)
          (λ _ s. set_arr (vms_get_page_index t page) (s.arr (vms_get_page_index t page) + 2) s) in
      let share_it : M (Unit {0}) = λ t. let t' = guarded b (guarded a t) in bump t' t' in
      let rest : Unit {0} → M (Unit {0}) = λ _ s.
        (if vms_pte_write (load_bytes 8 a s.bytes) || vms_pte_custom (load_bytes 8 a s.bytes)
            then share_it
            else (λ k. done tt k))
          s in
      let turn : Bool → Run (Unit {0}) =
        λ t. (if t then share_it else (λ k. done tt k)) (pointed a b m) in
      let run : cow_leaf a b m ≡ then_run (set_bits_except_write b a (pointed a b m)) rest =
        (unfold pointed guarded changed in refl) in
      run
      ∙ ap (λ r. then_run r rest) set_bits-idle
      ∙ ap (λ x. turn (vms_pte_write x || vms_pte_custom x)) pointed-parent
      ∙ elim (Bool-cases (vms_pte_write e || vms_pte_custom e)) [
        | inl h ↦
            let yes_shares : shares (fields e) ≡ true = unfold fields in ground (arith, h, valid) in
            ap turn h
            ∙ ap (λ i. then_run (in_bounds i m₅) (λ _ s. set_arr i (s.arr i + 2) s))
                (index-guarded page)
            ∙ ap
                (λ t.
                  then_run (if t then done tt m₅ else faults) (λ _ s. set_arr i (s.arr i + 2) s))
                (lt→ltb i max_pages (small yes_shares))
            ∙ ap (λ t. done tt (leaf_after t)) (sym yes_shares)
        | inr h ↦
            let no_shares : shares (fields e) ≡ false = unfold fields in ground (arith, h, valid) in
            ap turn h ∙ ap (λ t. done tt (leaf_after t)) (sym no_shares)
      ]

  shared-Marked : shares (fields (load_bytes 8 a m.bytes)) ≡ true → Marked a b m (leaf_after true)
  unfolding leaf_after
  shared-Marked h =
      let m₁ = pointed a b m in
      let m₃ = guarded a m₁ in
      let x₁ = pointed-SamePages in
      let x₃ = SamePages-trans x₁ (guarded-SamePages a m₁ x₁.ok) in
      let x₅ = SamePages-trans x₃ (guarded-SamePages b m₃ x₃.ok) in
      let marked : record (fields (load_bytes 8 a m.bytes)) { write = false; custom = true }
          ≡ cow (fields (load_bytes 8 a m.bytes)) =
        ap
          (λ t.
            if t
            then record (fields (load_bytes 8 a m.bytes)) { write = false; custom = true }
            else fields (load_bytes 8 a m.bytes))
          (sym h) in
      record {
        pages = record {
          ok = record { aligned = x₅.ok.aligned; fits = x₅.ok.fits; bytes = x₅.ok.bytes };
          base = x₅.base;
          root = x₅.root;
          allocated = x₅.allocated;
        };
        parent =
            ap fields (guarded-other a b m₃ apart)
            ∙ guarded-fields a m₁ x₁.ok
            ∙ ap (λ e. record (fields e) { write = false; custom = true }) pointed-parent
            ∙ marked;
        child =
            guarded-fields b m₃ x₃.ok
            ∙ ap (λ e. record (fields e) { write = false; custom = true })
                (guarded-other b a m₁ (swap apart))
            ∙ ap (λ (f : Fields). record f { write = false; custom = true }) pointed-child
            ∙ marked;
        kept = λ j oa ob. guarded-kept b m₃ j ob ∙ guarded-kept a m₁ j oa ∙ pointed-kept j ob;
        arr = λ q. unfold guarded pointed changed in ground (arith, h);
      }

  unshared-Marked :
      shares (fields (load_bytes 8 a m.bytes)) ≡ false → Marked a b m (leaf_after false)
  unfolding leaf_after
  unshared-Marked h =
      let marked : fields (load_bytes 8 a m.bytes) ≡ cow (fields (load_bytes 8 a m.bytes)) =
        ap
          (λ t.
            if t
            then record (fields (load_bytes 8 a m.bytes)) { write = false; custom = true }
            else fields (load_bytes 8 a m.bytes))
          (sym h) in
      record {
        pages = pointed-SamePages;
        parent = ap fields pointed-parent ∙ marked;
        child = pointed-child ∙ marked;
        kept = λ j oa ob. pointed-kept j ob;
        arr = λ q. unfold pointed changed in ground (arith, h);
      }

  leaf_after-Marked : Marked a b m (leaf_after (shares (fields (load_bytes 8 a m.bytes))))
  leaf_after-Marked = elim (Bool-cases (shares (fields (load_bytes 8 a m.bytes)))) [
    | inl h ↦ subst (λ t. Marked a b m (leaf_after t)) (sym h) (shared-Marked h)
    | inr h ↦ subst (λ t. Marked a b m (leaf_after t)) (sym h) (unshared-Marked h)
  ]

  pub cow_leaf-Marked :
      vms_pte_valid (load_bytes 8 a m.bytes) ≡ true
      → (shares (fields (load_bytes 8 a m.bytes)) ≡ true
          → vms_get_page_index m (next (load_bytes 8 a m.bytes)) < max_pages)
      → (m' : Machine) × (cow_leaf a b m ≡ done tt m') × Marked a b m m'
  cow_leaf-Marked valid small = (
    leaf_after (shares (fields (load_bytes 8 a m.bytes))),
    cow_leaf-runs valid small,
    leaf_after-Marked,
  )
