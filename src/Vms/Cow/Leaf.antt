-- ===== src/Vms/Cow/Leaf.antt =====
-- vms/src/vms.c, `recursive_cow` at level 0: a whole table.
use yep.Common.{
  ℕ, ◌+◌, ◌-◌, ◌*◌, ◌≤◌, ◌<◌, ◌≡◌, refl, sym, subst, ap, ◌∙◌, ◌⊎◌, true, arith, inl, inr,
}
use yep.Vms.Machine.{Machine, done, page_size, max_pages, in_page}
use yep.Vms.Pages.{vms_get_page_index}
use yep.Vms.Fork.{num_pte_entries, recursive_cow}
use yep.Vms.Entry.{fields}
use yep.Vms.Copy.Memory.{Out, Ok, load_bytes-same}
use yep.Vms.Copy.Tree.{entry_of, next, sum_entries, sum_entries-same, entry_of-same}
use yep.Vms.Copy.Page.{filled}
use yep.Vms.Cow.Entries.{shares, cow, share, SamePages}
use yep.Vms.Cow.Table.{each_valid-Shared}

-- A page table of level 0 at `p` and another page at `c`; a page that the fork shares is a page of the
-- region.
pub record IsLeaf (m : Machine) (p c : ℕ) : Type 0 where
  pub ok : Ok m
  pub apart : (p + page_size ≤ c) ⊎ (c + page_size ≤ p)
  pub inside :
      (k : ℕ)
      → k < num_pte_entries
      → shares (fields (entry_of m.bytes p k)) ≡ true
      → vms_get_page_index m (next (entry_of m.bytes p k)) < max_pages

-- The tables after the fork of that at `p` into that at `c`.
pub record Forked (m m' : Machine) (p c : ℕ) : Type 0 where
  pub pages : SamePages m m'
  pub parent :
      (k : ℕ)
      → k < num_pte_entries
      → fields (entry_of m'.bytes p k) ≡ cow (fields (entry_of m.bytes p k))
  pub child :
      (k : ℕ)
      → k < num_pte_entries
      → fields (entry_of m'.bytes c k) ≡ cow (fields (entry_of m.bytes p k))
  pub kept : (j : ℕ) → Out p page_size j → Out c page_size j → m'.bytes j ≡ m.bytes j
  pub counters : (q : ℕ) → m'.arr q ≡ m.arr q + sum_entries (share m q) m.bytes p 0 num_pte_entries

module _ (m : Machine) (p c : ℕ) where
  filled-outside : (j : ℕ) → Out c page_size j → (filled c p m).bytes j ≡ m.bytes j
  filled-outside j (inl h) = ground (arith, h)
  filled-outside j (inr h) = ground (arith, h)

  filled-inside : (o : ℕ) → o < page_size → (filled c p m).bytes (c + o) ≡ m.bytes (p + o)
  filled-inside o h =
      let inside : in_page c (c + o) ≡ true = ground arith in
      let there : p + (c + o - c) ≡ p + o = omega arith in simp (inside, there) refl

  filled-parent :
      (p + page_size ≤ c) ⊎ (c + page_size ≤ p)
      → (k : ℕ) → k < num_pte_entries
      → entry_of (filled c p m).bytes p k ≡ entry_of m.bytes p k
  filled-parent apart k h = entry_of-same m.bytes (filled c p m).bytes p k h (λ j i.
      filled-outside j (elim apart [
        | inl u ↦ inl (omega (arith, u, i.0, i.1))
        | inr u ↦ inr (omega (arith, u, i.0, i.1))
      ]))

  pub filled-child :
      (k : ℕ) → k < num_pte_entries → entry_of (filled c p m).bytes c k ≡ entry_of m.bytes p k
  filled-child k h =
      load_bytes-same 8 (p + 8 * k) (c + 8 * k) m.bytes (filled c p m).bytes (λ o small.
        ap (filled c p m).bytes (omega arith)
        ∙ filled-inside (8 * k + o) (omega arith)
        ∙ ap m.bytes (omega arith))

  filled-Ok : Ok m → Ok (filled c p m)
  filled-Ok ok = record {
    aligned = ok.aligned;
    fits = ok.fits;
    bytes = λ j. ground (arith, ok.bytes j, ok.bytes (p + (j - c)));
  }

-- `recursive_cow` at level 0 returns, on two pages that do not overlap: each entry of the parent's
-- table, and the entry of the child's with it, has the fields of the parent's old entry, and where
-- this is valid and has the write or the custom flag, it has lost the write flag and has the custom
-- flag. The counter of a page has grown by 2 for each such entry that points to it. Nothing else has
-- changed.
pub recursive_cow-Forked :
    (m : Machine) (p c : ℕ)
    → IsLeaf m p c
    → (m' : Machine) × (recursive_cow 0 p c m ≡ done tt m') × Forked m m' p c
unfolding recursive_cow
recursive_cow-Forked m p c l =
    let f = filled c p m in
    let parent = filled-parent m p c l.apart in
    let (m', run, x) = each_valid-Shared p c l.apart num_pte_entries 0 f (omega arith) (record {
      ok = filled-Ok m p c l.ok;
      same = λ k lo up. ap fields (filled-child m p c k up) ∙ sym (ap fields (parent k up));
      inside = λ k lo up h.
          subst (λ e. vms_get_page_index f (next e) < max_pages) (sym (parent k up))
            (unfold vms_get_page_index in
              l.inside k up (subst (λ e. shares (fields e) ≡ true) (parent k up) h));
    }) in
    (
      m',
      run,
      record {
        pages = record {
          ok = x.pages.ok;
          base = x.pages.base;
          root = x.pages.root;
          allocated = x.pages.allocated;
        };
        parent = λ k h. x.parent k (omega arith) h ∙ ap (λ e. cow (fields e)) (parent k h);
        child = λ k h. x.child k (omega arith) h ∙ ap (λ e. cow (fields e)) (parent k h);
        kept = λ j op oc. x.kept j (table p j op) (table c j oc) ∙ filled-outside m p c j oc;
        counters = λ q.
            x.arr q
            ∙ ap (λ n. m.arr q + n)
                (sum_entries-same (share m q) (share f q) m.bytes f.bytes p 0 num_pte_entries
                  (λ k lo up. unfold vms_get_page_index in ap (share m q) (parent k up)));
      },
    )
  where
    table : (t j : ℕ) → Out t page_size j → Out (t + 8 * 0) (8 * num_pte_entries) j
    table t j (inl h) = inl (omega (arith, h))
    table t j (inr h) = inr (omega (arith, h))
