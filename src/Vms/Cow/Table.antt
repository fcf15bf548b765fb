-- ===== src/Vms/Cow/Table.antt =====
-- vms/src/vms.c, `recursive_cow` at level 0: the loop over the entries of a table.
use yep.Common.{
  ℕ, zero, suc, ◌+◌, ◌*◌, ◌≤◌, ◌<◌, ◌≡◌, refl, sym, subst, ap, ◌∙◌, ◌⊎◌, true, false, arith, ◌==◌,
  ◌&&◌, if◌then◌else◌, Bool-cases, inl, inr,
}
use yep.Vms.Pte.{vms_pte_valid}
use yep.Vms.Machine.{Machine, M, done, pure, then_run, page_size, max_pages, load_bytes}
use yep.Vms.Pages.{vms_get_page_index}
use yep.Vms.PageTable.{vms_page_table_pte_entry_from_index}
use yep.Vms.Fork.{num_pte_entries, each_valid, cow_leaf}
use yep.Vms.Entry.{Fields, fields}
use yep.Vms.Copy.Memory.{Out, Ok, load_bytes-same}
use yep.Vms.Copy.Tree.{entry_of, next, sum_entries, sum_entries-same}
use yep.Vms.Cow.Entries.{shares, cow, share, SamePages, SamePages-trans, Marked, cow_leaf-Marked}

-- The entries from `i` on, `n` of them, are alike in the tables at `p` and `c`, and a page that the
-- fork shares is a page of the region.
pub record Alike (m : Machine) (p c i n : ℕ) : Type 0 where
  pub ok : Ok m
  pub same :
      (k : ℕ) → i ≤ k → k < i + n → fields (entry_of m.bytes c k) ≡ fields (entry_of m.bytes p k)
  pub inside :
      (k : ℕ)
      → i ≤ k
      → k < i + n
      → shares (fields (entry_of m.bytes p k)) ≡ true
      → vms_get_page_index m (next (entry_of m.bytes p k)) < max_pages

-- Those entries are as the fork makes them, in both tables, and each shared page is counted twice.
pub record Shared (p c i n : ℕ) (m m' : Machine) : Type 0 where
  pub pages : SamePages m m'
  pub parent :
      (k : ℕ)
      → i ≤ k
      → k < i + n
      → fields (entry_of m'.bytes p k) ≡ cow (fields (entry_of m.bytes p k))
  pub child :
      (k : ℕ)
      → i ≤ k
      → k < i + n
      → fields (entry_of m'.bytes c k) ≡ cow (fields (entry_of m.bytes p k))
  pub kept :
      (j : ℕ) → Out (p + 8 * i) (8 * n) j → Out (c + 8 * i) (8 * n) j → m'.bytes j ≡ m.bytes j
  pub arr : (q : ℕ) → m'.arr q ≡ m.arr q + sum_entries (share m q) m.bytes p i n

index-same :
    (m m' : Machine) (x : ℕ) → m'.base ≡ m.base → vms_get_page_index m' x ≡ vms_get_page_index m x
unfolding vms_get_page_index
index-same m m' x e = ap (λ b. vms_get_page_index (record m { base = b }) x) e

share-same : (m m' : Machine) (q e : ℕ) → m'.base ≡ m.base → share m' q e ≡ share m q e
share-same m m' q e h =
    ap (λ i. if shares (fields e) && (i == q) then 2 else 0) (index-same m m' (next e) h)

-- One round of the loop, also for an entry that is not valid.
turn : (a b : ℕ) → M (Unit {0})
turn a b m = (if vms_pte_valid (load_bytes 8 a m.bytes) then cow_leaf a b else pure tt) m

turn-Marked :
    (a b : ℕ) (m : Machine)
    → Ok m
    → (a + 8 ≤ b) ⊎ (b + 8 ≤ a)
    → fields (load_bytes 8 b m.bytes) ≡ fields (load_bytes 8 a m.bytes)
    → (shares (fields (load_bytes 8 a m.bytes)) ≡ true
        → vms_get_page_index m (next (load_bytes 8 a m.bytes)) < max_pages)
    → (m' : Machine) × (turn a b m ≡ done tt m') × Marked a b m m'
unfolding turn fields
turn-Marked a b m ok apart same small =
    let e = load_bytes 8 a m.bytes in
    elim (Bool-cases (vms_pte_valid e)) [
      | inl v ↦
          let (m', run, marked) = cow_leaf-Marked a b m ok apart same v small in
          (m', ap (λ t. (if t then cow_leaf a b else pure tt) m) v ∙ run, marked)
      | inr v ↦
          let none : shares (fields e) ≡ false = ground (arith, v) in
          (
            m,
            ap (λ t. (if t then cow_leaf a b else pure tt) m) v,
            record {
              pages = record { ok = ok; base = refl; root = refl; allocated = refl };
              parent = unchanged (fields e) none;
              child = same ∙ unchanged (fields e) none;
              kept = λ j oa ob. refl;
              arr = λ q. ground (arith, none);
            },
          )
    ]
  where
    unchanged : (f : Fields) → shares f ≡ false → f ≡ cow f
    unchanged f h = ap (λ t. if t then record f { write = false; custom = true } else f) (sym h)

module _ (p c : ℕ) (apart : (p + page_size ≤ c) ⊎ (c + page_size ≤ p)) where
  entries-apart :
      (i k : ℕ)
      → i < num_pte_entries
      → k < num_pte_entries
      → (p + 8 * i + 8 ≤ c + 8 * k) ⊎ (c + 8 * k + 8 ≤ p + 8 * i)
  entries-apart i k hi hk = elim apart [
    | inl h ↦ inl (omega (arith, h))
    | inr h ↦ inr (omega (arith, h))
  ]

  -- A later entry is left by one round.
  later-parent :
      (m m' : Machine) (i k : ℕ)
      → i < k
      → k < num_pte_entries
      → Marked (p + 8 * i) (c + 8 * i) m m'
      → entry_of m'.bytes p k ≡ entry_of m.bytes p k
  later-parent m m' i k less h x =
      load_bytes-same 8 (p + 8 * k) (p + 8 * k) m.bytes m'.bytes (λ o small.
        x.kept (p + 8 * k + o) (inr (omega arith))
          (elim apart [ inl u ↦ inl (omega (arith, u)) | inr u ↦ inr (omega (arith, u)) ]))

  later-child :
      (m m' : Machine) (i k : ℕ)
      → i < k
      → k < num_pte_entries
      → Marked (p + 8 * i) (c + 8 * i) m m'
      → entry_of m'.bytes c k ≡ entry_of m.bytes c k
  later-child m m' i k less h x =
      load_bytes-same 8 (c + 8 * k) (c + 8 * k) m.bytes m'.bytes (λ o small.
        x.kept (c + 8 * k + o)
          (elim apart [ inl u ↦ inr (omega (arith, u)) | inr u ↦ inl (omega (arith, u)) ])
          (inr (omega arith)))

  -- An entry before a range is left by the rounds for it.
  earlier-parent :
      (m m' : Machine) (i n : ℕ)
      → i + 1 + n ≤ num_pte_entries
      → Shared p c (i + 1) n m m'
      → entry_of m'.bytes p i ≡ entry_of m.bytes p i
  earlier-parent m m' i n bound y =
      load_bytes-same 8 (p + 8 * i) (p + 8 * i) m.bytes m'.bytes (λ o small.
        y.kept (p + 8 * i + o) (inl (omega arith)) (elim apart [
          | inl u ↦ inl (omega (arith, u, bound))
          | inr u ↦ inr (omega (arith, u, bound))
        ]))

  earlier-child :
      (m m' : Machine) (i n : ℕ)
      → i + 1 + n ≤ num_pte_entries
      → Shared p c (i + 1) n m m'
      → entry_of m'.bytes c i ≡ entry_of m.bytes c i
  earlier-child m m' i n bound y =
      load_bytes-same 8 (c + 8 * i) (c + 8 * i) m.bytes m'.bytes (λ o small.
        y.kept (c + 8 * i + o)
          (elim apart [
            | inl u ↦ inr (omega (arith, u, bound))
            | inr u ↦ inl (omega (arith, u, bound))
          ])
          (inl (omega arith)))

  Alike-later :
      (m m' : Machine) (i n : ℕ)
      → i + suc n ≤ num_pte_entries
      → Marked (p + 8 * i) (c + 8 * i) m m'
      → Alike m p c i (suc n)
      → Alike m' p c (i + 1) n
  Alike-later m m' i n bound x al = record {
    ok = x.pages.ok;
    same = λ k lo up.
        ap fields (later-child m m' i k (omega arith) (omega (arith, bound, up)) x)
        ∙ al.same k (omega arith) (omega arith)
        ∙ sym (ap fields (later-parent m m' i k (omega arith) (omega (arith, bound, up)) x));
    inside = λ k lo up h.
        let e = later-parent m m' i k (omega arith) (omega (arith, bound, up)) x in
        let was =
          al.inside k (omega arith) (omega arith) (subst (λ z. shares (fields z) ≡ true) e h) in
        omega (
          arith,
          was,
          index-same m m' (next (entry_of m'.bytes p k)) x.pages.base,
          ap (λ z. vms_get_page_index m (next z)) e,
        );
  }

  joined-Shared :
      (m m₁ m' : Machine) (i n : ℕ)
      → i + suc n ≤ num_pte_entries
      → Marked (p + 8 * i) (c + 8 * i) m m₁
      → Shared p c (i + 1) n m₁ m'
      → Shared p c i (suc n) m m'
  unfolding sum_entries
  joined-Shared m m₁ m' i n bound x y =
      let later : (k : ℕ)
          → i + 1 ≤ k
          → k < i + 1 + n
          → entry_of m₁.bytes p k ≡ entry_of m.bytes p k =
        λ k lo up. later-parent m m₁ i k (omega arith) (omega (arith, bound, up)) x in
      record {
        pages = SamePages-trans x.pages y.pages;
        parent = λ k lo up. elim (Bool-cases (i == k)) [
          | inl e ↦
              subst (λ z. fields (entry_of m'.bytes p z) ≡ cow (fields (entry_of m.bytes p z)))
                (ground arith)
                (ap fields (earlier-parent m₁ m' i n (omega (arith, bound)) y) ∙ x.parent)
          | inr e ↦
              let above : i + 1 ≤ k = ground arith in
              y.parent k above (omega arith)
              ∙ ap (λ z. cow (fields z)) (later k above (omega arith))
        ];
        child = λ k lo up. elim (Bool-cases (i == k)) [
          | inl e ↦
              subst (λ z. fields (entry_of m'.bytes c z) ≡ cow (fields (entry_of m.bytes p z)))
                (ground arith)
                (ap fields (earlier-child m₁ m' i n (omega (arith, bound)) y) ∙ x.child)
          | inr e ↦
              let above : i + 1 ≤ k = ground arith in
              y.child k above (omega arith) ∙ ap (λ z. cow (fields z)) (later k above (omega arith))
        ];
        kept = λ j op oc.
            y.kept j (tail p i n j op) (tail c i n j oc)
            ∙ x.kept j (first p i n j op) (first c i n j oc);
        arr = λ q.
            let same =
              sum_entries-same (share m q) (share m₁ q) m.bytes m₁.bytes p (i + 1) n (λ k lo up.
                share-same m m₁ q (entry_of m₁.bytes p k) x.pages.base
                ∙ ap (share m q) (later k lo up)) in
            omega (arith, y.arr q, same, x.arr q);
      }
    where
      first : (t i n j : ℕ) → Out (t + 8 * i) (8 * suc n) j → Out (t + 8 * i) 8 j
      first t i n j (inl h) = inl h
      first t i n j (inr h) = inr (omega (arith, h))

      tail : (t i n j : ℕ) → Out (t + 8 * i) (8 * suc n) j → Out (t + 8 * (i + 1)) (8 * n) j
      tail t i n j (inl h) = inl (omega (arith, h))
      tail t i n j (inr h) = inr (omega (arith, h))

  pub each_valid-Shared :
      (n i : ℕ) (m : Machine)
      → i + n ≤ num_pte_entries
      → Alike m p c i n
      → (m' : Machine) × (each_valid cow_leaf i n p c m ≡ done tt m') × Shared p c i n m m'
  unfolding each_valid sum_entries vms_page_table_pte_entry_from_index turn
  each_valid-Shared zero i m bound al = (
    m,
    refl,
    record {
      pages = record { ok = al.ok; base = refl; root = refl; allocated = refl };
      parent = λ k lo up. absurd (omega arith);
      child = λ k lo up. absurd (omega arith);
      kept = λ j op oc. refl;
      arr = λ q. omega arith;
    },
  )
  each_valid-Shared (suc n) i m bound al =
      let hi : i < num_pte_entries = omega (arith, bound) in
      let (m₁, run, x) =
        turn-Marked (p + 8 * i) (c + 8 * i) m al.ok (entries-apart i i hi hi)
          (al.same i (omega arith) (omega arith)) (al.inside i (omega arith) (omega arith)) in
      let rest : Unit {0} → M (Unit {0}) = λ _ s. each_valid cow_leaf (i + 1) n p c s in
      let (m', runs, y) =
        each_valid-Shared n (i + 1) m₁ (omega (arith, bound)) (Alike-later m m₁ i n bound x al) in
      (m', ap (λ r. then_run r rest) run ∙ runs, joined-Shared m m₁ m' i n bound x y)
