-- ===== src/Vms/Copy/Step.antt =====
-- vms/src/vms.c, `vms_fork_copy`: one valid entry of a table.
use yep.Common.{ℕ, zero, suc, ◌+◌, ◌≤◌, ◌<◌, ◌≡◌, refl, sym, ◌∙◌, ◌⊎◌, Bool, arith, inl, inr}
use yep.Vms.Machine.{Machine, M, done, pure, page_size, max_pages}
use yep.Vms.Fork.{num_pte_entries, each_valid, copy_entry}
use yep.Vms.Copy.Memory.{
  InPage, Out, Held, Fresh, Ok, used, Extends, Held-Fresh, Held-Extends, Fresh-Extends,
  Extends-trans,
}
use yep.Vms.Copy.Tree.{Within, CopyOf, pages, cover, Within-same, pages-same}
use yep.Vms.Copy.Page.{filled, took, Granted, vms_new_page-Granted}
use yep.Vms.Copy.Store.{Held-Out, Out-or-InPage}

-- The loop over a table with `l` levels from it on; level 0 is a page.
abbrev pub copy_level : ℕ → ℕ → ℕ → M (Unit {0})
copy_level zero = λ p c. pure tt
copy_level (suc l) = each_valid (copy_entry (copy_level l)) 0 num_pte_entries

abbrev pub Shared : Machine → ℕ → ℕ → Type 0
Shared m c j = Held m j × Out c page_size j

-- What the loop starts from: the table or page at `c` has the bytes of that at `p`, it is held and
-- not a part of what is below `p`, and there is room for the copy.
pub record Ready (l : ℕ) (m : Machine) (p c : ℕ) : Type 0 where
  pub ok : Ok m
  pub tree : Within (Shared m c) l m.bytes p
  pub held : (j : ℕ) → InPage c j → Held m j
  pub same : (o : ℕ) → o < page_size → m.bytes (c + o) ≡ m.bytes (p + o)
  pub room : used m + pages l m.bytes p ≤ max_pages

-- What it leaves.
pub record Copied (l : ℕ) (m m' : Machine) (p c : ℕ) : Type 0 where
  pub extends : Extends (Out c page_size) m m'
  pub counted : used m' ≡ used m + pages l m.bytes p
  pub copy : CopyOf l m'.bytes p c
  pub fresh : Within (λ j. Held m' j × (InPage c j ⊎ Fresh m j)) l m'.bytes c

abbrev pub Copies : ℕ → Type 0
Copies l =
    (m : Machine) (p c : ℕ)
    → Ready l m p c
    → (m' : Machine) × (copy_level l p c m ≡ done tt m') × Copied l m m' p c

-- A new page that is a copy of the one at `from`, with the machine that the copy leaves.
pub record Twin (l : ℕ) (m : Machine) (from child : ℕ) (a : ℕ → Bool) (n : ℕ) (m' : Machine)
    : Type 0 where
  pub page : Granted m from child a n
  pub runs : copy_level l from child (filled child from (took a n m)) ≡ done tt m'
  pub extends : Extends (λ j. Unit {0}) m m'
  pub counted : used m' ≡ used m + suc (pages l m.bytes from)
  pub copy : CopyOf l m'.bytes from child
  pub fresh : Within (λ j. Held m' j × Fresh m j) l m'.bytes child

pub new_child :
    (l : ℕ) (ih : Copies l) (m : Machine) (from : ℕ)
    → Ok m
    → Within (Held m) l m.bytes from
    → used m + suc (pages l m.bytes from) ≤ max_pages
    → (child : ℕ) × (a : ℕ → Bool) × (n : ℕ) × (m' : Machine) × Twin l m from child a n m'
new_child l ih m from ok tree room =
    let (child, a, n, page) = vms_new_page-Granted m from ok (omega (arith, room)) in
    let x = page.extends in
    let m₂ = filled child from (took a n m) in
    let out : (j : ℕ) → Held m j → Out child page_size j = λ j h. Held-Out h page.fresh in
    let count : pages l m₂.bytes from ≡ pages l m.bytes from =
      pages-same (Held m) l m.bytes m₂.bytes from tree (λ j h. x.kept j h tt) in
    let (m', runs, copied) = ih m₂ from child (record {
      ok = x.ok;
      tree =
          Within-same (Held m) (Shared m₂ child) l m.bytes m₂.bytes from tree
            (λ j h. (Held-Extends x h, out j h)) (λ j h. x.kept j h tt);
      held = page.held;
      same = λ o h.
          page.same o h
          ∙ sym (
              x.kept (from + o)
                (cover (Held m) l m.bytes from tree (from + o) (omega arith, omega arith)) tt);
      room = omega (arith, page.counted, count, room);
    }) in
    (
      child,
      a,
      n,
      m',
      record {
        page = page;
        runs = runs;
        extends =
            Extends-trans x copied.extends (λ j h u. tt) (λ j h u. out j h)
              (λ j f u. (
                tt,
                elim (Out-or-InPage child j) [
                  | inl o ↦ o
                  | inr i ↦ absurd (Held-Fresh (Held-Extends copied.extends (page.held j i)) f)
                ],
              ));
        counted = omega (arith, copied.counted, page.counted, count);
        copy = copied.copy;
        fresh =
            Within-same _ (λ j. Held m' j × Fresh m j) l m'.bytes m'.bytes child copied.fresh
              (λ j h. (h.0, elim h.1 [ inl i ↦ page.fresh j i | inr f ↦ Fresh-Extends x f ]))
              (λ j h. refl);
      },
    )
