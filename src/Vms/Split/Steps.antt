-- ===== src/Vms/Split/Steps.antt =====
-- vms/src/vms.c, `page_fault_handler`: the parts that split a page and release an entry.
use yep.Common.{ℕ, ◌-◌, ◌^◌, ◌<◌, ◌≡◌, refl, ap, ◌∙◌, Bool, true, false, arith, ◌==◌, if◌then◌else◌}
use yep.Vms.Pte.{
  vms_pte_set_ppn, vms_pte_valid_set, vms_pte_read_set, vms_pte_write_set, vms_pte_custom_clear,
}
use yep.Vms.Machine.{Machine, M, done, then_run, max_pages, load_bytes}
use yep.Vms.Pages.{vms_get_page_index, in_bounds}
use yep.Vms.PageTable.{vms_page_to_ppn}
use yep.Vms.Mmu.{split_page, release_entry, set_arr}
use yep.Vms.Entry.{Fields, fields, fields-set, fields-clear}
use yep.Vms.Access.{load_bytes-store_bytes, store_bytes-outside}
use yep.Vms.Flags.{low_bytes-fields}
use yep.Vms.Copy.Memory.{Out, page_at, Ok, load_bytes-small}
use yep.Vms.Copy.Page.{filled, took, Granted}
use yep.Vms.Copy.Store.{stored, stored-Extends}

pub index-page_at :
    (m : Machine) (k : ℕ) → Ok m → k < max_pages → vms_get_page_index m (page_at m k) ≡ k
unfolding vms_get_page_index
index-page_at m k ok h = omega (arith, ok.fits, h)

-- A change of an entry in memory changes its fields.
unfoldable pub changed : (a : ℕ) (f : ℕ → ℕ) → Machine → Machine
changed a f m = stored a (f (load_bytes 8 a m.bytes)) m

pub changed-fields :
    (a : ℕ) (f : ℕ → ℕ) (update : Fields → Fields) (m : Machine)
    → Ok m
    → ((e : ℕ) → e < 2 ^ 64 → fields (f e) ≡ update (fields e))
    → fields (load_bytes 8 a (changed a f m).bytes) ≡ update (fields (load_bytes 8 a m.bytes))
unfolding changed
changed-fields a f update m ok law =
    let e = load_bytes 8 a m.bytes in
    ap fields (load_bytes-store_bytes 8 a (f e) m.bytes)
    ∙ low_bytes-fields (f e)
    ∙ law e (load_bytes-small a m.bytes ok.bytes)

pub changed-Ok : (a : ℕ) (f : ℕ → ℕ) (m : Machine) → Ok m → Ok (changed a f m)
unfolding changed
changed-Ok a f m ok = (stored-Extends a (f (load_bytes 8 a m.bytes)) m ok).ok

-- What `release_entry` does to the memory.
unfoldable pub released : ℕ → ℕ → Machine → Machine
released a idx m = changed a vms_pte_custom_clear (
    changed a vms_pte_write_set (
      changed a vms_pte_read_set (
        changed a vms_pte_valid_set
          (record m { arr = λ j. if idx == j then m.arr idx - 1 else m.arr j }))))

pub release_entry-released :
    (a idx : ℕ) (m : Machine) → release_entry a idx m ≡ done tt (released a idx m)
unfolding release_entry released changed
release_entry-released a idx m = refl

pub released-fields :
    (a idx : ℕ) (m : Machine)
    → Ok m
    → fields (load_bytes 8 a (released a idx m).bytes) ≡ record {
      custom = false;
      write = true;
      read = true;
      valid = true;
      ppn = (fields (load_bytes 8 a m.bytes)).ppn;
    }
unfolding released
released-fields a idx m ok =
    let m₀ : Machine = record m { arr = λ j. if idx == j then m.arr idx - 1 else m.arr j } in
    let ok₀ : Ok m₀ = record { aligned = ok.aligned; fits = ok.fits; bytes = ok.bytes } in
    let m₁ = changed a vms_pte_valid_set m₀ in
    let ok₁ = changed-Ok a vms_pte_valid_set m₀ ok₀ in
    let m₂ = changed a vms_pte_read_set m₁ in
    let ok₂ = changed-Ok a vms_pte_read_set m₁ ok₁ in
    let m₃ = changed a vms_pte_write_set m₂ in
    let ok₃ = changed-Ok a vms_pte_write_set m₂ ok₂ in
    changed-fields a vms_pte_custom_clear (λ f. record f { custom = false }) m₃ ok₃
      (λ e h. (fields-clear e h).3)
    ∙ ap (λ (f : Fields). record f { custom = false })
        (changed-fields a vms_pte_write_set (λ f. record f { write = true }) m₂ ok₂
            (λ e h. (fields-set e).2)
          ∙ ap (λ (f : Fields). record f { write = true })
              (changed-fields a vms_pte_read_set (λ f. record f { read = true }) m₁ ok₁
                  (λ e h. (fields-set e).1)
                ∙ ap (λ (f : Fields). record f { read = true })
                    (changed-fields a vms_pte_valid_set (λ f. record f { valid = true }) m₀ ok₀
                      (λ e h. (fields-set e).0))))

pub changed-kept :
    (a : ℕ) (f : ℕ → ℕ) (m : Machine) (j : ℕ) → Out a 8 j → (changed a f m).bytes j ≡ m.bytes j
unfolding changed
changed-kept a f m j o = store_bytes-outside 8 a (f (load_bytes 8 a m.bytes)) m.bytes j o

pub released-kept :
    (a idx : ℕ) (m : Machine) (j : ℕ) → Out a 8 j → (released a idx m).bytes j ≡ m.bytes j
unfolding released
released-kept a idx m j o =
    changed-kept a vms_pte_custom_clear _ j o
    ∙ changed-kept a vms_pte_write_set _ j o
    ∙ changed-kept a vms_pte_read_set _ j o
    ∙ changed-kept a vms_pte_valid_set _ j o

-- The machine when the page has been split: `a` is the address of the entry, the new page `child` has
-- the bytes of the old one, and the counter of the page table is 1.
unfoldable pub split : ℕ → ℕ → ℕ → ℕ → ℕ → (ℕ → Bool) → ℕ → Machine → Machine
split a old kt child ppn al n m =
    let c = changed a (λ e. vms_pte_set_ppn e ppn) (filled child old (took al n m)) in
    record c { arr = λ j. if kt == j then 1 else c.arr j }

pub split_page-split :
    (a old page_table kt child ppn : ℕ) (al : ℕ → Bool) (n : ℕ) (m : Machine)
    → Granted m old child al n
    → vms_page_to_ppn child (filled child old (took al n m))
      ≡ done ppn (filled child old (took al n m))
    → kt < max_pages
    → ((c : Machine) → c.base ≡ m.base → vms_get_page_index c page_table ≡ kt)
    → split_page a old page_table m ≡ done tt (split a old kt child ppn al n m)
unfolding split_page split changed
split_page-split a old page_table kt child ppn al n m g number small index =
    let c =
      stored a (vms_pte_set_ppn (load_bytes 8 a (filled child old (took al n m)).bytes) ppn)
        (filled child old (took al n m)) in
    let third : Machine → M (Unit {0}) = λ s _.
      then_run (in_bounds (vms_get_page_index s page_table) s)
        (λ u. set_arr (vms_get_page_index s page_table) 1) in
    let second : ℕ → M (Unit {0}) =
      λ x s. let c = stored a (vms_pte_set_ppn (load_bytes 8 a s.bytes) x) s in third c c in
    let first : ℕ → M (Unit {0}) =
      λ page k. then_run (vms_page_to_ppn page (filled page old k)) second in
    ap (λ x. then_run x first) g.runs
    ∙ ap (λ x. then_run x second) number
    ∙ ap (λ i. then_run (in_bounds i c) (λ u. set_arr i 1)) (index c refl)
    ∙ ground (arith, small)
