-- ===== src/Vms/Ends.antt =====
-- vms/src/mmu.c: the loop of `mmu` ends.
use yep.Common.{
  ℕ, zero, suc, ◌+◌, ◌≢◌, refl, sym, ◌∙◌, Bool, true, false, arith, if◌then◌else◌, ltb, leb,
  Bool-cases, inl, inr,
}
use yep.Vms.Machine.{
  Machine, Run, M, done, exits, asserts, faults, stopped, then_run, pure, load_bytes,
}
use yep.Vms.Pages.{vms_new_page, new_page_from, in_bounds}
use yep.Vms.Pte.{vms_pte_read, vms_pte_write}
use yep.Vms.PageTable.{vms_page_table_pte_entry, vms_page_to_ppn}
use yep.Vms.Mmu.{
  should_generate_fault, page_fault_handler, handle_custom, handle_shared, split_page,
  release_entry, mmu, ensure, get_base_page, vms_write, vms_read,
}
use yep.Vms.Walk.{entry_at, next_table, walk, mmu-walk, retried}

-- A run that does not run out of fuel.
abbrev Ends : {A : Type 0} → Run A → Type 0
Ends r = r ≢ stopped

then_run-Ends :
    {A B : Type 0} (r : Run A) (f : A → M B)
    → Ends r
    → ((a : A) (m : Machine) → Ends (f a m))
    → Ends (then_run r f)
then_run-Ends (done a m) f h k = k a m
then_run-Ends exits f h k = λ e. ground (arith, e)
then_run-Ends asserts f h k = λ e. ground (arith, e)
then_run-Ends faults f h k = λ e. ground (arith, e)
then_run-Ends stopped f h k = absurd (h refl)

new_page_from-Ends : (i n : ℕ) (m : Machine) → Ends (new_page_from i n m)
unfolding new_page_from
new_page_from-Ends i zero m = λ e. ground (arith, e)
new_page_from-Ends i (suc n) m = λ e. elim (Bool-cases (m.allocated i)) [
  | inl a ↦ new_page_from-Ends (i + 1) n m (ground (arith, a, e))
  | inr a ↦ ground (arith, a, e)
]

vms_page_to_ppn-Ends : (p : ℕ) (m : Machine) → Ends (vms_page_to_ppn p m)
unfolding vms_page_to_ppn
vms_page_to_ppn-Ends p m = λ e. ground (arith, e)

split_page-Ends :
    (entry old_p0 page_table : ℕ) (m : Machine) → Ends (split_page entry old_p0 page_table m)
unfolding split_page vms_new_page
split_page-Ends entry old_p0 page_table m =
    then_run-Ends _ _ (new_page_from-Ends 0 256 m) (λ new_p0 m₁.
      then_run-Ends _ _ (vms_page_to_ppn-Ends new_p0 _) (λ ppn m₂ e. ground (arith, e)))

if-Ends : {A : Type 0} (b : Bool) (r q : Run A) → Ends r → Ends q → Ends (if b then r else q)
if-Ends true r q h k = h
if-Ends false r q h k = k

in_bounds-Ends :
    {A : Type 0} (i : ℕ) (m : Machine) (f : Unit {0} → M A)
    → Ends (f tt m)
    → Ends (then_run (in_bounds i m) f)
in_bounds-Ends i m f h = elim (Bool-cases (ltb i 256)) [
  | inl e ↦ λ s. h (ground (arith, e, s))
  | inr e ↦ λ s. ground (arith, e, s)
]

handle_shared-Ends :
    (entry old_p0 page_table idx : ℕ) (m : Machine)
    → Ends (handle_shared entry old_p0 page_table idx m)
unfolding handle_shared release_entry
handle_shared-Ends entry old_p0 page_table idx m = in_bounds-Ends idx m _ (
    then_run-Ends _ _
      (if-Ends (ltb 1 (m.arr idx)) (split_page entry old_p0 page_table m) (done tt m)
        (split_page-Ends entry old_p0 page_table m) (λ e. ground (arith, e)))
      (λ u s.
        if-Ends (leb 1 (s.arr idx)) _ (done tt s) (λ e. ground (arith, e))
          (λ e. ground (arith, e))))

if_at-Ends :
    {A : Type 0} (b : Bool) (c d : M A) (m : Machine)
    → Ends (c m)
    → Ends (d m)
    → Ends ((if b then c else d) m)
if_at-Ends true c d m h k = h
if_at-Ends false c d m h k = k

handle_custom-Ends : (entry page_table : ℕ) (m : Machine) → Ends (handle_custom entry page_table m)
unfolding handle_custom
handle_custom-Ends entry page_table m = handle_shared-Ends _ _ _ _ _

page_fault_handler-Ends :
    (va level page_table : ℕ) (m : Machine) → Ends (page_fault_handler va level page_table m)
unfolding page_fault_handler
page_fault_handler-Ends va level page_table m =
    if_at-Ends _ (handle_custom (vms_page_table_pte_entry page_table va level) page_table) (pure tt)
      m (handle_custom-Ends _ _ m) (λ e. ground (arith, e))

walk-Ends : (va : ℕ) (m : Machine) → Ends (walk va m)
unfolding walk
walk-Ends va m =
    let t₁ = next_table m va 2 m.root in
    let t₀ = next_table m va 1 t₁ in
    if-Ends (should_generate_fault 2 (entry_at m va 2 m.root)) exits _ (λ e. ground (arith, e))
      (if-Ends (should_generate_fault 1 (entry_at m va 1 t₁)) exits _ (λ e. ground (arith, e))
        (if-Ends (should_generate_fault 0 (entry_at m va 0 t₀)) _ _
          (then_run-Ends (page_fault_handler va 0 t₀ m) (λ u. retried va t₀)
            (page_fault_handler-Ends va 0 t₀ m) (λ u s e. ground (arith, e)))
          (λ e. ground (arith, e))))

mmu-Ends : (va : ℕ) (m : Machine) → Ends (mmu va m)
mmu-Ends va m = λ e. walk-Ends va m (sym (mmu-walk va m) ∙ e)

ensure-Ends : (allows : ℕ → Bool) (va entry : ℕ) (m : Machine) → Ends (ensure allows va entry m)
unfolding ensure
ensure-Ends allows va entry m =
    let again : M (Unit {0}) =
      λ n. (if allows (load_bytes 8 entry n.bytes) then pure tt else λ k. exits) n in
    let second : M (Unit {0}) =
      λ n. then_run (page_fault_handler va 0 (get_base_page entry) n) (λ u. again) in
    if_at-Ends (allows (load_bytes 8 entry m.bytes)) (pure tt) second m (λ e. ground (arith, e))
      (then_run-Ends (page_fault_handler va 0 (get_base_page entry) m) (λ u. again)
        (page_fault_handler-Ends va 0 (get_base_page entry) m)
        (λ u s.
          if_at-Ends (allows (load_bytes 8 entry s.bytes)) (pure tt) (λ n. exits) s
            (λ e. ground (arith, e)) (λ e. ground (arith, e))))

-- Whatever stands in memory, the loop of `mmu` has fuel enough, and so `vms_read` and `vms_write`
-- end: they return, or the process ends by an exit, an assertion or an access out of bounds.
pub mmu_ends :
    (virtual_address value : ℕ) (m : Machine)
    → (mmu virtual_address m ≢ stopped)
      × (vms_read virtual_address m ≢ stopped)
      × (vms_write virtual_address value m ≢ stopped)
unfolding vms_read vms_write
mmu_ends va value m = (
  mmu-Ends va m,
  then_run-Ends _ _ (mmu-Ends va m) (λ entry s.
      then_run-Ends _ _ (ensure-Ends vms_pte_read va entry s) (λ u n e. ground (arith, e))),
  then_run-Ends _ _ (mmu-Ends va m) (λ entry s.
      then_run-Ends _ _ (ensure-Ends vms_pte_write va entry s) (λ u n e. ground (arith, e))),
)
