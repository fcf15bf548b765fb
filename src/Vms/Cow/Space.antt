-- ===== src/Vms/Cow/Space.antt =====
-- vms/src/vms.c, `vms_fork_copy_on_write`: the tables of level 0, which the fork changes, and the tables above them.
use yep.Common.{
  ℕ, zero, suc, ◌+◌, ◌*◌, ◌%◌, ◌<◌, ◌≡◌, sym, subst, ap, ◌∙◌, ◌⊎◌, true, false, arith, Bool-cases,
  inl, inr,
}
use yep.Vms.Pte.{vms_pte_valid}
use yep.Vms.Machine.{Machine, page_size, max_pages}
use yep.Vms.Pages.{vms_get_page_index}
use yep.Vms.PageTable.{vms_ppn_to_page}
use yep.Vms.Fork.{num_pte_entries}
use yep.Vms.Entry.{Fields, fields}
use yep.Vms.Copy.Memory.{InPage, Out, Held, Fresh, Ok, Extends}
use yep.Vms.Copy.Idle.{SameFlags}
use yep.Vms.Copy.Tree.{entry_of, next, entry_of-same}
use yep.Vms.Cow.Entries.{shares, cow}

-- An address in none of the tables of level 0.
abbrev pub Off : (ℕ → Type 0) → ℕ → Type 0
Off T j = (t : ℕ) → T t → Out t page_size j

-- The fields of an entry before the fork has reached it, or after.
abbrev pub Softer : Fields → Fields → Type 0
Softer f g = (g ≡ f) ⊎ (g ≡ cow f)

cow-shares : (f : Fields) → shares (cow f) ≡ shares f
cow-shares f = elim (Bool-cases (shares f)) [
  | inl h ↦ ground (arith, h)
  | inr h ↦ ground (arith, h)
]

pub cow-cow : (f : Fields) → cow (cow f) ≡ cow f
cow-cow f = elim (Bool-cases (shares f)) [ inl h ↦ ground (arith, h) | inr h ↦ ground (arith, h) ]

cow-ppn : (f : Fields) → (cow f).ppn ≡ f.ppn
cow-ppn f = elim (Bool-cases (shares f)) [ inl h ↦ ground (arith, h) | inr h ↦ ground (arith, h) ]

pub Softer-trans : {f g h : Fields} → Softer f g → Softer g h → Softer f h
Softer-trans (inl a) (inl b) = inl (b ∙ a)
Softer-trans (inl a) (inr b) = inr (b ∙ ap cow a)
Softer-trans (inr a) (inl b) = inr (b ∙ a)
Softer-trans {f} (inr a) (inr b) = inr (b ∙ ap cow a ∙ cow-cow f)

pub Softer-cow : {f g : Fields} → Softer f g → cow g ≡ cow f
Softer-cow (inl a) = ap cow a
Softer-cow {f} (inr a) = ap cow a ∙ cow-cow f

-- What the fork has done stays done.
pub Softer-done : (f g h : Fields) → g ≡ cow f → Softer g h → h ≡ cow f
Softer-done f g h a (inl b) = b ∙ a
Softer-done f g h a (inr b) = b ∙ ap cow a ∙ cow-cow f

-- The tables of level 0 are pages in use, and a page that the fork shares is a page of the region.
pub record Leaves (T : ℕ → Type 0) (m : Machine) : Type 0 where
  pub aligned : (t : ℕ) → T t → t % page_size ≡ 0
  pub held : (t : ℕ) → T t → (j : ℕ) → InPage t j → Held m j
  pub inside :
      (t : ℕ)
      → T t
      → (k : ℕ) → k < num_pte_entries
      → shares (fields (entry_of m.bytes t k)) ≡ true
      → vms_get_page_index m (next (entry_of m.bytes t k)) < max_pages

-- Pages may have been taken; the held bytes in `P` and in no table of level 0 are as before; and each
-- entry of level 0 is as before or as the fork makes it.
pub record Forks (T P : ℕ → Type 0) (m m' : Machine) : Type 0 where
  pub ok : Ok m'
  pub base : m'.base ≡ m.base
  pub root : m'.root ≡ m.root
  pub grows : (k : ℕ) → m.allocated k ≡ true → m'.allocated k ≡ true
  pub kept : (j : ℕ) → Held m j → P j → Off T j → m'.bytes j ≡ m.bytes j
  pub leaf :
      (t : ℕ)
      → T t
      → (k : ℕ) → k < num_pte_entries
      → Softer (fields (entry_of m.bytes t k)) (fields (entry_of m'.bytes t k))

-- The tables from `t` on, `l` levels of them above level 0, lie in `U`.
abbrev pub Tree : (ℕ → Type 0) → (ℕ → Type 0) → ℕ → (ℕ → ℕ) → ℕ → Type 0
Tree T U zero b t = T t
Tree T U (suc l) b t =
    ((j : ℕ) → InPage t j → U j)
    × ((i : ℕ)
        → i < num_pte_entries
        → vms_pte_valid (entry_of b t i) ≡ true
        → Tree T U l b (next (entry_of b t i)))

-- The table at `c` in `b` is a copy on write of that at `p` in `b₀`: down to level 0 as for a copy,
-- and there both tables have the entries that the fork makes of those in `b₀`.
abbrev pub CowOf : ℕ → (ℕ → ℕ) → (ℕ → ℕ) → ℕ → ℕ → Type 0
CowOf zero b₀ b p c =
    (k : ℕ)
    → k < num_pte_entries
    → (fields (entry_of b p k) ≡ cow (fields (entry_of b₀ p k)))
      × (fields (entry_of b c k) ≡ cow (fields (entry_of b₀ p k)))
CowOf (suc l) b₀ b p c =
    (i : ℕ)
    → i < num_pte_entries
    → (vms_pte_valid (entry_of b₀ p i) ≡ false → entry_of b c i ≡ entry_of b₀ p i)
      × (vms_pte_valid (entry_of b₀ p i) ≡ true
          → SameFlags (entry_of b₀ p i) (entry_of b c i)
            × CowOf l b₀ b (next (entry_of b₀ p i)) (next (entry_of b c i)))

module _ {T P : ℕ → Type 0} {m m' : Machine} (x : Forks T P m m') where
  pub Held-Forks : {j : ℕ} → Held m j → Held m' j
  Held-Forks {j} h = record {
    taken = λ k l i. x.grows k (h.taken k l (subst (λ b. InPage (b + k * page_size) j) x.base i));
  }

  pub Fresh-Forks : {j : ℕ} → Fresh m' j → Fresh m j
  Fresh-Forks {j} f = record {
    index = f.index;
    small = f.small;
    inside = subst (λ b. InPage (b + f.index * page_size) j) x.base f.inside;
    free = elim (Bool-cases (m.allocated f.index)) [
      | inl a ↦ absurd (ground (arith, x.grows f.index a, f.free))
      | inr a ↦ a
    ];
  }

  Softer-next :
      (e e' : ℕ)
      → Softer (fields e) (fields e')
      → (next e' ≡ next e) × (shares (fields e') ≡ shares (fields e))
  unfolding fields
  Softer-next e e' (inl a) = (ap (λ (f : Fields). vms_ppn_to_page f.ppn) a, ap shares a)
  Softer-next e e' (inr a) = (
    ap (λ (f : Fields). vms_ppn_to_page f.ppn) a ∙ ap vms_ppn_to_page (cow-ppn (fields e)),
    ap shares a ∙ cow-shares (fields e),
  )

  pub Leaves-Forks : Leaves T m → Leaves T m'
  unfolding vms_get_page_index
  Leaves-Forks l = record {
    aligned = l.aligned;
    held = λ t h j i. Held-Forks (l.held t h j i);
    inside = λ t h k small s.
        let (to, sh) =
          Softer-next (entry_of m.bytes t k) (entry_of m'.bytes t k) (x.leaf t h k small) in
        let was = l.inside t h k small (sym sh ∙ s) in
        subst (λ p. vms_get_page_index m' p < max_pages) (sym to)
          (subst
            (λ b.
              vms_get_page_index (record m { base = b }) (next (entry_of m.bytes t k)) < max_pages)
            (sym x.base) was);
  }

pub Forks-trans :
    {T P Q R : ℕ → Type 0} {m₁ m₂ m₃ : Machine}
    → Forks T P m₁ m₂
    → Forks T Q m₂ m₃
    → ((j : ℕ) → Held m₁ j → R j → P j)
    → ((j : ℕ) → Held m₁ j → R j → Q j)
    → Forks T R m₁ m₃
Forks-trans a b p q = record {
  ok = b.ok;
  base = b.base ∙ a.base;
  root = b.root ∙ a.root;
  grows = λ k h. b.grows k (a.grows k h);
  kept = λ j h r o. b.kept j (Held-Forks a h) (q j h r) o ∙ a.kept j h (p j h r) o;
  leaf = λ t h k l. Softer-trans (a.leaf t h k l) (b.leaf t h k l);
}

-- A call that leaves the tables of level 0 alone.
pub Extends-Forks :
    {T P : ℕ → Type 0} {m m' : Machine}
    → Extends P m m'
    → Leaves T m
    → ((t : ℕ) → T t → (j : ℕ) → InPage t j → P j)
    → Forks T P m m'
Extends-Forks {m = m} {m' = m'} x l p = record {
  ok = x.ok;
  base = x.base;
  root = x.root;
  grows = x.grows;
  kept = λ j h q o. x.kept j h q;
  leaf = λ t h k small. inl (
      ap fields
        (entry_of-same m.bytes m'.bytes t k small (λ j i. x.kept j (l.held t h j i) (p t h j i))));
}
