-- ===== src/Vms/Split/Handler.antt =====
-- vms/src/vms.c, `page_fault_handler`: an entry whose page has more than one pointer to it.
use yep.Common.{
  ℕ, ◌+◌, ◌-◌, ◌%◌, ◌^◌, ◌<◌, ◌≡◌, ◌≢◌, sym, subst, ap, ◌∙◌, Bool, true, false, arith, ltb, leb,
  if◌then◌else◌, Bool-cases, inl, inr, ltb→lt, ltb-false→le, lt→ltb,
}
use yep.Vms.Pte.{
  vms_pte_valid, vms_pte_read, vms_pte_write, vms_pte_custom, vms_pte_set_ppn, vms_pte_write_set,
}
use yep.Vms.Machine.{Machine, M, done, then_run, page_size, max_pages, load_bytes}
use yep.Vms.Pages.{vms_get_page_index, in_bounds}
use yep.Vms.PageTable.{
  vms_page_table_pte_entry, vms_page_table_pte_entry_from_index, vms_ppn_to_page,
}
use yep.Vms.Mmu.{page_fault_handler, handle_custom, handle_shared, split_page, release_entry}
use yep.Vms.Entry.{Fields, fields, fields-set, fields-set_ppn}
use yep.Vms.Copy.Memory.{
  InPage, Out, page_at, Held, Fresh, Ok, used, Extends, Held-Extends, Fresh-Extends, Held-Fresh,
}
use yep.Vms.Copy.Tree.{next}
use yep.Vms.Copy.Page.{filled, took, Granted, vms_new_page-Granted, vms_page_to_ppn-low}
use yep.Vms.Copy.Store.{stored, stored-Extends}
use yep.Vms.Copy.Route.{index_low}
use yep.Vms.Split.Steps.{
  index-page_at, changed, changed-fields, changed-Ok, released, release_entry-released,
  released-fields, changed-kept, released-kept, split, split_page-split,
}

-- A valid entry with the custom flag, in page `kt` of the region, points to page `ko`, whose counter
-- says that more than one entry points to it; and some page is free.
pub record IsShared (m : Machine) (va page_table ko kt : ℕ) : Type 0 where
  pub ok : Ok m
  pub valid : vms_pte_valid (load_bytes 8 (vms_page_table_pte_entry page_table va 0) m.bytes) ≡ true
  pub custom :
      vms_pte_custom (load_bytes 8 (vms_page_table_pte_entry page_table va 0) m.bytes) ≡ true
  pub page : next (load_bytes 8 (vms_page_table_pte_entry page_table va 0) m.bytes) ≡ page_at m ko
  pub old_page : ko < max_pages
  pub old_taken : m.allocated ko ≡ true
  pub table : page_table ≡ page_at m kt
  pub table_page : kt < max_pages
  pub table_taken : m.allocated kt ≡ true
  pub different : ko ≢ kt
  pub counted : 1 < m.arr ko
  pub room : used m < max_pages

-- The entry at `a` has a page of its own with the bytes of page `ko`.
pub record Owns (m m' : Machine) (a ko kt child : ℕ) : Type 0 where
  pub valid : vms_pte_valid (load_bytes 8 a m'.bytes) ≡ true
  pub read : vms_pte_read (load_bytes 8 a m'.bytes) ≡ true
  pub write : vms_pte_write (load_bytes 8 a m'.bytes) ≡ true
  pub custom : vms_pte_custom (load_bytes 8 a m'.bytes) ≡ false
  pub to : next (load_bytes 8 a m'.bytes) ≡ child
  pub fresh : (j : ℕ) → InPage child j → Fresh m j
  pub same : (o : ℕ) → o < page_size → m'.bytes (child + o) ≡ m.bytes (page_at m ko + o)
  pub kept : (j : ℕ) → Held m j → Out a 8 j → m'.bytes j ≡ m.bytes j
  pub old_counter : m'.arr ko ≡ m.arr ko - 1
  pub table_counter : m'.arr kt ≡ 1
  pub other_counters : (k : ℕ) → ko ≢ k → kt ≢ k → m'.arr k ≡ m.arr k

module _ (m : Machine) (a ko kt : ℕ) (ok : Ok m) (taken : m.allocated kt ≡ true)
    (inside : (o : ℕ) → o < 8 → InPage (page_at m kt) (a + o)) where
  -- The bytes of the entry are in use, and in no other page of the region.
  entry-Held : (o : ℕ) → o < 8 → Held m (a + o)
  entry-Held o h =
      let (lo, up) = inside o h in
      record {
        taken = λ k l i.
            let same : kt ≡ k = omega (arith, lo, up, i.0, i.1) in
            subst (λ x. m.allocated x ≡ true) same taken;
      }

  entry-Out :
      (page : ℕ)
      → ((j : ℕ) → InPage page j → (o : ℕ) → o < 8 → a + o ≢ j)
      → (j : ℕ) → InPage page j
      → Out a 8 j
  entry-Out page apart j i = elim (Bool-cases (ltb j a)) [
    | inl e ↦ inl (ltb→lt j a e)
    | inr e ↦ elim (Bool-cases (ltb j (a + 8))) [
      | inr u ↦ inr (ltb-false→le j (a + 8) u)
      | inl u ↦
          let lo = ltb-false→le j a e in
          let up = ltb→lt j (a + 8) u in
          absurd (apart j i (j - a) (omega (arith, lo, up)) (omega (arith, lo)))
    ]
  ]

  old-Out : ko ≢ kt → (j : ℕ) → InPage (page_at m ko) j → Out a 8 j
  old-Out ne =
      entry-Out (page_at m ko)
        (λ j i o h e. let (lo, up) = inside o h in ne (omega (arith, lo, up, i.0, i.1, e)))

  fresh-Out :
      (page : ℕ) → ((j : ℕ) → InPage page j → Fresh m j) → (j : ℕ) → InPage page j → Out a 8 j
  fresh-Out page fresh =
      entry-Out page
        (λ j i o h e. Held-Fresh (entry-Held o h) (subst (Fresh m) (sym e) (fresh j i)))

-- The two tests of the counter, when the first call splits the page.
handle_shared-released :
    (a old page_table ko : ℕ) (m m₂ : Machine)
    → ko < max_pages
    → 1 < m.arr ko
    → split_page a old page_table m ≡ done tt m₂
    → 0 < m₂.arr ko
    → handle_shared a old page_table ko m ≡ done tt (released a ko m₂)
unfolding handle_shared
handle_shared-released a old page_table ko m m₂ small shared splits counted =
    let second : Unit {0} → M (Unit {0}) =
      λ _ k. if leb 1 (k.arr ko) then release_entry a ko k else done tt k in
    let first : Unit {0} → M (Unit {0}) = λ _ k.
      then_run (if ltb 1 (k.arr ko) then split_page a old page_table k else done tt k) second in
    let in_range : in_bounds ko m ≡ done tt m = ground (arith, small) in
    let again : leb 1 (m₂.arr ko) ≡ true = ground (arith, counted) in
    ap (λ r. then_run r first) in_range
    ∙ ap (λ b. then_run (if b then split_page a old page_table m else done tt m) second)
        (lt→ltb 1 (m.arr ko) shared)
    ∙ ap (λ r. then_run r second) splits
    ∙ ap (λ b. if b then release_entry a ko m₂ else done tt m₂) again
    ∙ release_entry-released a ko m₂

page_fault_handler-custom :
    (m : Machine) (va page_table ko : ℕ)
    → Ok m
    → ko < max_pages
    → let a = vms_page_table_pte_entry page_table va 0 in
      let m₁ = changed a vms_pte_write_set m in
      vms_pte_valid (load_bytes 8 a m.bytes) ≡ true
      → vms_pte_custom (load_bytes 8 a m.bytes) ≡ true
      → next (load_bytes 8 a m₁.bytes) ≡ page_at m ko
      → page_fault_handler va 0 page_table m
        ≡ handle_shared a (next (load_bytes 8 a m₁.bytes)) page_table ko m₁
unfolding page_fault_handler handle_custom changed
page_fault_handler-custom m va page_table ko ok small valid custom page =
    let a = vms_page_table_pte_entry page_table va 0 in
    let m₁ = stored a (vms_pte_write_set (load_bytes 8 a m.bytes)) m in
    let old = next (load_bytes 8 a m₁.bytes) in
    ground (arith, valid, custom)
    ∙ ap (λ i. handle_shared a old page_table i m₁)
        (ap (vms_get_page_index m₁) page ∙ index-page_at m₁ ko (changed-Ok₁ a m ok) small)
  where
    changed-Ok₁ :
        (a : ℕ) (m : Machine) → Ok m → Ok (stored a (vms_pte_write_set (load_bytes 8 a m.bytes)) m)
    changed-Ok₁ a m ok = (stored-Extends a (vms_pte_write_set (load_bytes 8 a m.bytes)) m ok).ok

-- What the machine is when the page has been split and the entry released.
split-Owns :
    (m : Machine) (a old ko kt child ppn n : ℕ) (al : ℕ → Bool)
    → Ok m
    → m.allocated kt ≡ true
    → ((o : ℕ) → o < 8 → InPage (page_at m kt) (a + o))
    → ko ≢ kt
    → old ≡ page_at m ko
    → Granted (changed a vms_pte_write_set m) old child al n
    → vms_ppn_to_page (ppn % 2 ^ 44) ≡ child
    → Owns m
        (released a ko (split a old kt child ppn al n (changed a vms_pte_write_set m)))
        a
        ko
        kt
        child
unfolding fields
split-Owns m a old ko kt child ppn n al ok taken inside ne page g back =
    let m₁ = changed a vms_pte_write_set m in
    let f = filled child old (took al n m₁) in
    let m₂ = split a old kt child ppn al n m₁ in
    let x₁ : Extends (Out a 8) m m₁ =
      unfold changed in stored-Extends a (vms_pte_write_set (load_bytes 8 a m.bytes)) m ok in
    let split_bytes : (j : ℕ) → Out a 8 j → m₂.bytes j ≡ f.bytes j =
      λ j o. unfold split in changed-kept a (λ e. vms_pte_set_ppn e ppn) f j o in
    let ok₂ : Ok m₂ =
      unfold split in
      (let k = changed-Ok a (λ e. vms_pte_set_ppn e ppn) f g.extends.ok in
        record { aligned = k.aligned; fits = k.fits; bytes = k.bytes }) in
    let number : (fields (load_bytes 8 a m₂.bytes)).ppn ≡ ppn % 2 ^ 44 =
      unfold split in
      ap (λ (z : Fields). z.ppn)
        (changed-fields a (λ e. vms_pte_set_ppn e ppn) (λ z. record z { ppn = ppn % 2 ^ 44 }) f
          g.extends.ok (λ e h. fields-set_ppn e ppn h)) in
    let all = released-fields a ko m₂ ok₂ in
    let fresh : (j : ℕ) → InPage child j → Fresh m j = λ j i. Fresh-Extends x₁ (g.fresh j i) in
    record {
      valid = ap (λ (z : Fields). z.valid) all;
      read = ap (λ (z : Fields). z.read) all;
      write = ap (λ (z : Fields). z.write) all;
      custom = ap (λ (z : Fields). z.custom) all;
      to = ap (λ (z : Fields). vms_ppn_to_page z.ppn) all ∙ ap vms_ppn_to_page number ∙ back;
      fresh = fresh;
      same = λ o h.
          let out =
            fresh-Out m a ko kt ok taken inside child fresh (child + o)
              (omega arith, omega arith) in
          let there =
            old-Out m a ko kt ok taken inside ne (page_at m ko + o) (omega arith, omega arith) in
          released-kept a ko m₂ (child + o) out
          ∙ split_bytes (child + o) out
          ∙ g.same o h
          ∙ ap (λ z. m₁.bytes (z + o)) page
          ∙ changed-kept a vms_pte_write_set m (page_at m ko + o) there;
      kept = λ j h o.
          released-kept a ko m₂ j o
          ∙ split_bytes j o
          ∙ g.extends.kept j (Held-Extends x₁ h) tt
          ∙ x₁.kept j h o;
      old_counter = counters.0;
      table_counter = counters.1;
      other_counters = counters.2;
    }
  where
    counters :
        (let m' = released a ko (split a old kt child ppn al n (changed a vms_pte_write_set m)) in
          (m'.arr ko ≡ m.arr ko - 1)
          × (m'.arr kt ≡ 1)
          × ((k : ℕ) → ko ≢ k → kt ≢ k → m'.arr k ≡ m.arr k))
    counters =
        unfold released split changed in
        (ground (arith, ne), ground (arith, ne), λ k x y. ground (arith, x, y))

-- In a state in which an entry shares its page, `page_fault_handler` at level 0 returns: the entry is
-- valid, may be read and written, has no custom flag, and points to a page that was free and has now
-- the bytes of the old page; no other byte in use has changed. The counter of the old page is one
-- less, that of the page in which the entry stands is 1, and the others, that of the new page
-- with them, are as before.
pub page_fault_handler-Owns :
    (m : Machine) (va page_table ko kt : ℕ)
    → IsShared m va page_table ko kt
    → (child : ℕ) × (m' : Machine) × (page_fault_handler va 0 page_table m ≡ done tt m')
      × Owns m m' (vms_page_table_pte_entry page_table va 0) ko kt child
page_fault_handler-Owns m va page_table ko kt s =
    let a = vms_page_table_pte_entry page_table va 0 in
    let m₁ = changed a vms_pte_write_set m in
    let old = next (load_bytes 8 a m₁.bytes) in
    let page : old ≡ page_at m ko =
      unfold fields in
      ap (λ (z : Fields). vms_ppn_to_page z.ppn)
        (changed-fields a vms_pte_write_set (λ z. record z { write = true }) m s.ok
          (λ e h. (fields-set e).2))
      ∙ s.page in
    let ok₁ = changed-Ok a vms_pte_write_set m s.ok in
    let room : used m₁ < max_pages = unfold changed in s.room in
    let (child, al, n, g) = vms_new_page-Granted m₁ old ok₁ room in
    let (ppn, number, back) =
      vms_page_to_ppn-low (filled child old (took al n m₁)) child g.aligned g.low in
    let m₂ = split a old kt child ppn al n m₁ in
    let splits =
      split_page-split a old page_table kt child ppn al n m₁ g number s.table_page
        (λ c e. table_index c e) in
    (
      child,
      released a ko m₂,
      page_fault_handler-custom m va page_table ko s.ok s.old_page s.valid s.custom page
          ∙ handle_shared-released a old page_table ko m₁ m₂ s.old_page
              (unfold changed in s.counted) splits
              (unfold split changed in ground (arith, s.counted)),
      split-Owns m a old ko kt child ppn n al s.ok s.table_taken entry_inside s.different page g
          back,
    )
  where
    entry_inside :
        (o : ℕ) → o < 8 → InPage (page_at m kt) (vms_page_table_pte_entry page_table va 0 + o)
    entry_inside o h =
        unfold vms_page_table_pte_entry vms_page_table_pte_entry_from_index in
        (
          omega (arith, s.table, index_low va 0 (omega arith)),
          omega (arith, s.table, index_low va 0 (omega arith)),
        )

    table_index :
        (c : Machine)
        → c.base ≡ (changed (vms_page_table_pte_entry page_table va 0) vms_pte_write_set m).base
        → vms_get_page_index c page_table ≡ kt
    table_index c e =
        unfold vms_get_page_index changed in omega (arith, e, s.table, s.ok.fits, s.table_page)
