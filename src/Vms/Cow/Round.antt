-- ===== src/Vms/Cow/Round.antt =====
-- vms/src/vms.c, `recursive_cow`: one round of the loop over a table above level 0.
use yep.Common.{
  ℕ, suc, ◌+◌, ◌*◌, ◌%◌, ◌^◌, ◌≤◌, ◌<◌, ◌≡◌, refl, sym, subst, ◌∙◌, Bool, true, false, arith, ◌==◌,
  Bool-cases, inl, inr,
}
use yep.Vms.Pte.{vms_pte_valid, vms_pte_set_ppn}
use yep.Vms.Machine.{Machine, done, page_size, max_pages}
use yep.Vms.PageTable.{vms_ppn_to_page}
use yep.Vms.Fork.{num_pte_entries, cow_node, recursive_cow}
use yep.Vms.Copy.Memory.{Out, Held, Fresh, used, load_bytes-same}
use yep.Vms.Copy.Idle.{SameFlags, set_all_bits_idle}
use yep.Vms.Copy.Tree.{entry_of, next, Within, pages, entry_of-same, Within-same}
use yep.Vms.Copy.Page.{vms_page_to_ppn-low}
use yep.Vms.Copy.Store.{Points, store_bytes-Points, stored, stored-Extends, Out-entry}
use yep.Vms.Cow.Space.{
  Forks, Held-Forks, Fresh-Forks, Leaves-Forks, Forks-trans, Extends-Forks, CowOf,
}
use yep.Vms.Cow.Upper.{CowOf-later, CowOf-earlier}
use yep.Vms.Cow.Step.{Upper, Own, Ready, Cows, Twin, new_child}
use yep.Vms.Cow.Loop.{
  Entry, Round, parent_entry, parent-Tree, Fresh-Off, Fresh-Out, leaf-Out, Entry-kept,
  cow_node-runs,
}

module _ (T : ℕ → Type 0) (l : ℕ) (m₀ : Machine) (p c : ℕ) (r : Ready T (suc l) m₀ p c) where
  -- The machine after the entry `i` has been linked to the new table.
  abbrev after_link : Machine → ℕ → ℕ → Machine
  after_link m₃ i ppn = stored (c + 8 * i) (vms_pte_set_ppn (entry_of m₃.bytes c i) ppn) m₃

  link-Forks :
      (m m₃ : Machine) (i child : ℕ) (a : ℕ → Bool) (n ppn : ℕ)
      → i < num_pte_entries
      → Round T l m₀ m p c i
      → Twin T l m (next (entry_of m₀.bytes p i)) child a n m₃
      → Forks T (Out (c + 8 * i) 8) m₃ (after_link m₃ i ppn)
  link-Forks m m₃ i child a n ppn h round ch =
      Extends-Forks
        (stored-Extends (c + 8 * i) (vms_pte_set_ppn (entry_of m₃.bytes c i) ppn) m₃ ch.forks.ok)
        (Leaves-Forks ch.forks (Leaves-Forks round.forks r.leaves))
        (λ t q j k. Out-entry c i j h (leaf-Out T l m₀ p c r t q j k))

  linked :
      (m m₃ : Machine) (i child : ℕ) (a : ℕ → Bool) (n ppn : ℕ)
      → i < num_pte_entries
      → vms_pte_valid (entry_of m₀.bytes p i) ≡ true
      → Round T l m₀ m p c i
      → Twin T l m (next (entry_of m₀.bytes p i)) child a n m₃
      → vms_ppn_to_page (ppn % 2 ^ 44) ≡ child
      → Points (entry_of m₀.bytes p i) (entry_of (after_link m₃ i ppn).bytes c i) child
        × Entry T l m₀ (after_link m₃ i ppn) p c i
  linked m m₃ i child a n ppn h v round ch back =
      let x = round.forks in
      let e = entry_of m₀.bytes p i in
      let m₄ = after_link m₃ i ppn in
      let y = link-Forks m m₃ i child a n ppn h round ch in
      let own : entry_of m₃.bytes c i ≡ e =
        entry_of-same m.bytes m₃.bytes c i h
          (λ j k. ch.forks.kept j (Held-Forks x (r.held j k)) tt (r.off j k))
        ∙ round.after i (omega arith) h in
      let points = store_bytes-Points m₃.bytes (c + 8 * i) e ppn child ch.forks.ok.bytes own back in
      let there : (j : ℕ) → Held m₃ j × Fresh m j → m₄.bytes j ≡ m₃.bytes j = λ j k.
        let f = Fresh-Forks x k.1 in
        y.kept j k.0 (Out-entry c i j h (Fresh-Out T l m₀ p c r j f))
          (Fresh-Off T l m₀ p c r j f) in
      let later =
        CowOf-later T (Own T m) (λ j. Held m₃ j × Fresh m j) l m.bytes m₃.bytes m₄.bytes (next e)
          child (parent-Tree T l m₀ p c r m x i h v) ch.fresh there y.leaf ch.copy in
      let copy =
        CowOf-earlier T (Upper T m₀ c) l m₀.bytes m.bytes m₄.bytes (next e) child (r.tree.1 i h v)
          (λ j u. x.kept j u.0 u.1 u.2) x.leaf later in
      let fresh =
        Within-same (λ j. Held m₃ j × Fresh m j) (λ j. Held m₄ j × Fresh m₀ j) l m₃.bytes m₄.bytes
          child ch.fresh (λ j k. (Held-Forks y k.0, Fresh-Forks x k.1)) there in
      (
        points,
        record {
          shut = λ w. absurd (ground (arith, v, w));
          flags = λ w. points.flags;
          copy = λ w. subst (CowOf l m₀.bytes m₄.bytes (next e)) (sym points.to) copy;
          fresh =
              λ w. subst (Within (λ j. Held m₄ j × Fresh m₀ j) l m₄.bytes) (sym points.to) fresh;
        },
      )

  pub cow_node-Round :
      (ih : Cows T l) (m : Machine) (i : ℕ)
      → i < num_pte_entries
      → vms_pte_valid (entry_of m₀.bytes p i) ≡ true
      → Round T l m₀ m p c i
      → used m + suc (pages l m.bytes (next (entry_of m₀.bytes p i))) ≤ max_pages
      → (m' : Machine) × (cow_node (recursive_cow l) (p + 8 * i) (c + 8 * i) m ≡ done tt m')
        × Round T l m₀ m' p c (i + 1)
        × (used m' ≡ used m + suc (pages l m.bytes (next (entry_of m₀.bytes p i))))
  cow_node-Round ih m i h v round room =
      let x = round.forks in
      let e = entry_of m₀.bytes p i in
      let (child, a, n, m₃, ch) =
        new_child T l ih m (next e) x.ok (Leaves-Forks x r.leaves)
          (parent-Tree T l m₀ p c r m x i h v) room in
      let (ppn, number, back) = vms_page_to_ppn-low m₃ child ch.page.aligned ch.page.low in
      let m₄ = after_link m₃ i ppn in
      let y = link-Forks m m₃ i child a n ppn h round ch in
      let (points, entry) = linked m m₃ i child a n ppn h v round ch back in
      let whole : Forks T (Out (c + 8 * i) 8) m m₄ =
        Forks-trans ch.forks y (λ j k o. tt) (λ j k o. o) in
      let all : Forks T (Out c page_size) m₀ m₄ =
        Forks-trans x whole (λ j k o. o) (λ j k o. Out-entry c i j h o) in
      let flags : SameFlags (entry_of m₄.bytes c i) (entry_of m₄.bytes p i) =
        subst (SameFlags (entry_of m₄.bytes c i)) (sym (parent_entry T l m₀ p c r m₄ all i h))
          (turned e (entry_of m₄.bytes c i) points.flags) in
      (
        m₄,
        cow_node-runs T l m₀ p c r m m₃ i child a n ppn
            (subst (λ z. Twin T l m (next z) child a n m₃) (sym (parent_entry T l m₀ p c r m x i h))
              ch)
            number m₄ refl (set_all_bits_idle (c + 8 * i) (p + 8 * i) m₄ all.ok.bytes flags),
        record {
          forks = all;
          before = λ k less. elim (Bool-cases (i == k)) [
            | inl eq ↦ subst (Entry T l m₀ m₄ p c) (ground arith) entry
            | inr ne ↦
                Entry-kept T l m₀ p c r m m₄ i k h (omega (arith, h, less)) (ground arith) x whole
                  (round.before k (ground arith))
          ];
          after = λ k lo up.
              load_bytes-same 8 (c + 8 * k) (c + 8 * k) m.bytes m₄.bytes (λ o small.
                whole.kept (c + 8 * k + o)
                  (Held-Forks x (r.held (c + 8 * k + o) (omega arith, omega arith)))
                  (inr (omega arith)) (r.off (c + 8 * k + o) (omega arith, omega arith)))
              ∙ round.after k (omega arith) up;
        },
        ch.counted,
      )
    where
      turned : (e e' : ℕ) → SameFlags e e' → SameFlags e' e
      turned e e' s = record {
        valid = sym s.valid;
        read = sym s.read;
        write = sym s.write;
        custom = sym s.custom;
      }

  -- An entry that is not valid is left as it was copied.
  pub shut-Round :
      (m : Machine) (i : ℕ)
      → i < num_pte_entries
      → vms_pte_valid (entry_of m₀.bytes p i) ≡ false
      → Round T l m₀ m p c i
      → Round T l m₀ m p c (i + 1)
  shut-Round m i h v round = record {
    forks = round.forks;
    before = λ k less. elim (Bool-cases (i == k)) [
      | inl eq ↦ subst (Entry T l m₀ m p c) (ground arith) (record {
        shut = λ w. round.after i (omega arith) h;
        flags = λ w. absurd (ground (arith, v, w));
        copy = λ w. absurd (ground (arith, v, w));
        fresh = λ w. absurd (ground (arith, v, w));
      })
      | inr ne ↦ round.before k (ground arith)
    ];
    after = λ k lo up. round.after k (omega arith) up;
  }
