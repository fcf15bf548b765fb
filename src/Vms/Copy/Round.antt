-- ===== src/Vms/Copy/Round.antt =====
-- vms/src/vms.c, `vms_fork_copy`: one round of the loop, and all of them.
use yep.Common.{
  ℕ, suc, ◌+◌, ◌*◌, ◌%◌, ◌^◌, ◌≤◌, ◌<◌, ◌≡◌, refl, sym, subst, ap, ◌∙◌, Bool, true, false, arith,
  ◌==◌, Bool-cases, inl, inr,
}
use yep.Vms.Pte.{vms_pte_valid, vms_pte_set_ppn}
use yep.Vms.Machine.{Machine, done, max_pages}
use yep.Vms.PageTable.{vms_ppn_to_page}
use yep.Vms.Fork.{num_pte_entries, copy_entry}
use yep.Vms.Copy.Memory.{
  InPage, Out, Held, Fresh, used, Extends, Held-Fresh, Held-Extends, Fresh-Extends, Extends-trans,
  load_bytes-same,
}
use yep.Vms.Copy.Idle.{SameFlags, set_all_bits_idle}
use yep.Vms.Copy.Tree.{
  entry_of, next, Within, CopyOf, pages, entry_of-same, Within-same, CopyOf-same,
}
use yep.Vms.Copy.Page.{vms_page_to_ppn-low}
use yep.Vms.Copy.Store.{
  Points, store_bytes-Points, stored, stored-Extends, Out-or-InPage, Out-entry,
}
use yep.Vms.Copy.Step.{copy_level, Shared, Ready, Copies, Twin, new_child}
use yep.Vms.Copy.Loop.{Entry, Round, parent_tree, parent_entry, Entry-kept, copy_entry-runs}

module _ (l : ℕ) (m₀ : Machine) (p c : ℕ) (r : Ready (suc l) m₀ p c) where
  -- The copied entry and the page below it, after the child's page has been filled.
  linked :
      (m m₃ : Machine) (i child : ℕ) (a : ℕ → Bool) (n ppn : ℕ)
      → i < num_pte_entries
      → vms_pte_valid (entry_of m.bytes p i) ≡ true
      → Round l m₀ m p c i
      → Twin l m (next (entry_of m.bytes p i)) child a n m₃
      → vms_ppn_to_page (ppn % 2 ^ 44) ≡ child
      → let m₄ = stored (c + 8 * i) (vms_pte_set_ppn (entry_of m₃.bytes c i) ppn) m₃ in
        Points (entry_of m.bytes p i) (entry_of m₄.bytes c i) child
        × (entry_of m₄.bytes p i ≡ entry_of m.bytes p i)
        × Entry l m₀ m₄ p c i
  linked m m₃ i child a n ppn h v round ch back =
      let x = round.extends in
      let e = entry_of m.bytes p i in
      let m₄ = stored (c + 8 * i) (vms_pte_set_ppn (entry_of m₃.bytes c i) ppn) m₃ in
      let y =
        stored-Extends (c + 8 * i) (vms_pte_set_ppn (entry_of m₃.bytes c i) ppn) m₃ ch.extends.ok in
      let held : (j : ℕ) → InPage c j → Held m j = λ j k. Held-Extends x (r.held j k) in
      let fresh_out : (j : ℕ) → Fresh m j → Out (c + 8 * i) 8 j = λ j f.
        Out-entry c i j h
          (elim (Out-or-InPage c j) [ inl o ↦ o | inr k ↦ absurd (Held-Fresh (held j k) f) ]) in
      let own : entry_of m₃.bytes c i ≡ e =
        entry_of-same m.bytes m₃.bytes c i h (λ j k. ch.extends.kept j (held j k) tt)
        ∙ round.after i (omega arith) h in
      let points =
        store_bytes-Points m₃.bytes (c + 8 * i) e ppn child ch.extends.ok.bytes own back in
      let parent : (j : ℕ) → Shared m₀ c j → m₄.bytes j ≡ m.bytes j = λ j k.
        y.kept j (Held-Extends ch.extends (Held-Extends x k.0)) (Out-entry c i j h k.1)
        ∙ ch.extends.kept j (Held-Extends x k.0) tt in
      let same = parent_entry l m₀ p c r m m₄ x parent i h in
      let tree = (parent_tree l m₀ p c r m x).1 i h v in
      let below : (j : ℕ) → Shared m₀ c j → m₄.bytes j ≡ m₃.bytes j =
        λ j k. y.kept j (Held-Extends ch.extends (Held-Extends x k.0)) (Out-entry c i j h k.1) in
      let there : (j : ℕ) → Held m₃ j × Fresh m j → m₄.bytes j ≡ m₃.bytes j =
        λ j k. y.kept j k.0 (fresh_out j k.1) in
      let tree₃ =
        Within-same (Shared m₀ c) (Shared m₀ c) l m.bytes m₃.bytes (next e) tree (λ j k. k)
          (λ j k. ch.extends.kept j (Held-Extends x k.0) tt) in
      let copy =
        CopyOf-same (Shared m₀ c) (λ j. Held m₃ j × Fresh m j) l m₃.bytes m₄.bytes (next e) child
          tree₃ ch.fresh below there ch.copy in
      let fresh =
        Within-same (λ j. Held m₃ j × Fresh m j) (λ j. Held m₄ j × Fresh m₀ j) l m₃.bytes m₄.bytes
          child ch.fresh (λ j k. (Held-Extends y k.0, Fresh-Extends x k.1)) there in
      (
        points,
        same,
        record {
          shut = λ w. absurd (ground (arith, ap vms_pte_valid same, v, w));
          flags = λ w. subst (λ z. SameFlags z (entry_of m₄.bytes c i)) (sym same) points.flags;
          copy = λ w.
              subst (λ z. CopyOf l m₄.bytes (next z) (next (entry_of m₄.bytes c i))) (sym same)
                (subst (CopyOf l m₄.bytes (next e)) (sym points.to) copy);
          fresh =
              λ w. subst (Within (λ j. Held m₄ j × Fresh m₀ j) l m₄.bytes) (sym points.to) fresh;
        },
      )

  pub copy_entry-Round :
      (ih : Copies l) (m : Machine) (i : ℕ)
      → i < num_pte_entries
      → vms_pte_valid (entry_of m.bytes p i) ≡ true
      → Round l m₀ m p c i
      → used m + suc (pages l m.bytes (next (entry_of m.bytes p i))) ≤ max_pages
      → (m' : Machine) × (copy_entry (copy_level l) (p + 8 * i) (c + 8 * i) m ≡ done tt m')
        × Round l m₀ m' p c (i + 1)
        × (used m' ≡ used m + suc (pages l m.bytes (next (entry_of m.bytes p i))))
  copy_entry-Round ih m i h v round room =
      let x = round.extends in
      let e = entry_of m.bytes p i in
      let tree = (parent_tree l m₀ p c r m x).1 i h v in
      let held_tree =
        Within-same (Shared m₀ c) (Held m) l m.bytes m.bytes (next e) tree
          (λ j k. Held-Extends x k.0) (λ j k. refl) in
      let (child, a, n, m₃, ch) = new_child l ih m (next e) x.ok held_tree room in
      let (ppn, number, back) = vms_page_to_ppn-low m₃ child ch.page.aligned ch.page.low in
      let v₄ = vms_pte_set_ppn (entry_of m₃.bytes c i) ppn in
      let m₄ = stored (c + 8 * i) v₄ m₃ in
      let y = stored-Extends (c + 8 * i) v₄ m₃ ch.extends.ok in
      let (points, same, entry) = linked m m₃ i child a n ppn h v round ch back in
      let flags : SameFlags (entry_of m₄.bytes c i) (entry_of m₄.bytes p i) =
        subst (SameFlags (entry_of m₄.bytes c i)) (sym same)
          (turned e (entry_of m₄.bytes c i) points.flags) in
      let idle = set_all_bits_idle (c + 8 * i) (p + 8 * i) m₄ y.ok.bytes flags in
      let whole : Extends (Out (c + 8 * i) 8) m m₄ =
        Extends-trans ch.extends y (λ j k o. tt) (λ j k o. o) (λ j f o. (tt, o)) in
      (
        m₄,
        copy_entry-runs l m₀ p c r m m₃ i child a n ppn ch number m₄ refl idle,
        record {
          extends =
              Extends-trans x whole (λ j k o. o) (λ j k o. Out-entry c i j h o)
                (λ j f o. (o, Out-entry c i j h o));
          before = λ k less. elim (Bool-cases (i == k)) [
            | inl eq ↦ subst (Entry l m₀ m₄ p c) (ground arith) entry
            | inr ne ↦
                Entry-kept l m₀ p c r m m₄ i k h (omega (arith, h, less)) (ground arith) x whole
                  (round.before k (ground arith))
          ];
          after = λ k lo up.
              load_bytes-same 8 (c + 8 * k) (c + 8 * k) m.bytes m₄.bytes (λ o small.
                whole.kept (c + 8 * k + o)
                  (Held-Extends x (r.held (c + 8 * k + o) (omega arith, omega arith)))
                  (inr (omega arith)))
              ∙ round.after k (omega arith) up
              ∙ sym (
                  parent_entry l m₀ p c r m m₄ x
                    (λ j k'. whole.kept j (Held-Extends x k'.0) (Out-entry c i j h k'.1)) k up);
        },
        ch.counted,
      )
    where
      turned : (e e' : ℕ) → SameFlags e e' → SameFlags e' e
      turned e e' s = record {
        valid = sym s.valid;
        read = sym s.read;
        write = sym s.write;
        custom = sym s.custom;
      }

  -- An entry that is not valid is left as it was copied.
  pub shut-Round :
      (m : Machine) (i : ℕ)
      → i < num_pte_entries
      → vms_pte_valid (entry_of m.bytes p i) ≡ false
      → Round l m₀ m p c i
      → Round l m₀ m p c (i + 1)
  shut-Round m i h v round = record {
    extends = round.extends;
    before = λ k less. elim (Bool-cases (i == k)) [
      | inl eq ↦ subst (Entry l m₀ m p c) (ground arith) (record {
        shut = λ w. round.after i (omega arith) h;
        flags = λ w. absurd (ground (arith, v, w));
        copy = λ w. absurd (ground (arith, v, w));
        fresh = λ w. absurd (ground (arith, v, w));
      })
      | inr ne ↦ round.before k (ground arith)
    ];
    after = λ k lo up. round.after k (omega arith) up;
  }
