-- ===== src/Vms/Cow/Step.antt =====
-- vms/src/vms.c, `recursive_cow`: the call for the table below an entry.
use yep.Common.{
  ℕ, zero, suc, ◌+◌, ◌*◌, ◌%◌, ◌≤◌, ◌<◌, ◌≡◌, refl, sym, subst, ap, ◌∙◌, ◌⊎◌, Bool, arith, ◌==◌,
  ltb, ltb→lt, ltb-false→le, Bool-cases, inl, inr,
}
use yep.Vms.Machine.{Machine, M, done, page_size, max_pages}
use yep.Vms.Fork.{num_pte_entries, each_valid, cow_leaf, cow_node, recursive_cow}
use yep.Vms.Entry.{fields}
use yep.Vms.Allocator.{count_allocated}
use yep.Vms.Copy.Memory.{InPage, Out, Held, Fresh, Ok, used, Held-Extends, Fresh-Extends}
use yep.Vms.Copy.Tree.{entry_of, Within, pages, entry_of-same, Within-same}
use yep.Vms.Copy.Page.{filled, took, Granted, vms_new_page-Granted}
use yep.Vms.Copy.Store.{Held-Out, Out-or-InPage}
use yep.Vms.Cow.Table.{each_valid-Shared}
use yep.Vms.Cow.Leaf.{filled-child}
use yep.Vms.Cow.Space.{
  Off, Softer, Leaves, Forks, Leaves-Forks, Held-Forks, Forks-trans, Extends-Forks, Tree, CowOf,
}
use yep.Vms.Cow.Upper.{Tree-same, CowOf-earlier, pages-Tree}

-- The loop of `recursive_cow`, after the table has been copied.
abbrev pub cow_level : ℕ → ℕ → ℕ → M (Unit {0})
cow_level zero = each_valid cow_leaf 0 num_pte_entries
cow_level (suc l) = each_valid (cow_node (recursive_cow l)) 0 num_pte_entries

pub recursive_cow-level :
    (l p c : ℕ) (m : Machine) → recursive_cow l p c m ≡ cow_level l p c (filled c p m)
unfolding recursive_cow
recursive_cow-level zero p c m = refl
recursive_cow-level (suc l) p c m = refl

abbrev pub Upper : (ℕ → Type 0) → Machine → ℕ → ℕ → Type 0
Upper T m c j = Held m j × Out c page_size j × Off T j

-- What the loop starts from.
pub record Ready (T : ℕ → Type 0) (l : ℕ) (m : Machine) (p c : ℕ) : Type 0 where
  pub ok : Ok m
  pub leaves : Leaves T m
  pub tree : Tree T (Upper T m c) l m.bytes p
  pub held : (j : ℕ) → InPage c j → Held m j
  pub off : (j : ℕ) → InPage c j → Off T j
  pub same : (k : ℕ) → k < num_pte_entries → entry_of m.bytes c k ≡ entry_of m.bytes p k
  pub room : used m + pages l m.bytes p ≤ max_pages

-- What it leaves.
pub record Cowed (T : ℕ → Type 0) (l : ℕ) (m m' : Machine) (p c : ℕ) : Type 0 where
  pub forks : Forks T (Out c page_size) m m'
  pub counted : used m' ≡ used m + pages l m.bytes p
  pub copy : CowOf l m.bytes m'.bytes p c
  pub fresh : Within (λ j. Held m' j × (InPage c j ⊎ Fresh m j)) l m'.bytes c

abbrev pub Cows : (ℕ → Type 0) → ℕ → Type 0
Cows T l =
    (m : Machine) (p c : ℕ)
    → Ready T l m p c
    → (m' : Machine) × (cow_level l p c m ≡ done tt m') × Cowed T l m m' p c

-- A page that is not in use is in no table of level 0.
pub Out-Off :
    (T : ℕ → Type 0) (c : ℕ)
    → ((t : ℕ) → T t → (j : ℕ) → InPage t j → Out c page_size j)
    → (j : ℕ) → InPage c j
    → Off T j
Out-Off T c out j i t h = elim (Bool-cases (ltb j t)) [
  | inl e ↦ inl (ltb→lt j t e)
  | inr e ↦ elim (Bool-cases (ltb j (t + page_size))) [
    | inr u ↦ inr (ltb-false→le j (t + page_size) u)
    | inl u ↦ elim (out t h j (ltb-false→le j t e, ltb→lt j (t + page_size) u)) [
      | inl a ↦ absurd (omega (arith, a, i.0))
      | inr a ↦ absurd (omega (arith, a, i.1))
    ]
  ]
]

-- Two pages with no byte in common.
apart_pages :
    (p c : ℕ)
    → ((j : ℕ) → InPage c j → Out p page_size j)
    → (p + page_size ≤ c) ⊎ (c + page_size ≤ p)
apart_pages p c out = elim (out c (omega arith, omega arith)) [
  | inr a ↦ inl a
  | inl a ↦ elim (out (c + 4095) (omega arith, omega arith)) [
    | inl b ↦ inr (omega (arith, b))
    | inr b ↦ absurd (omega (arith, a, b))
  ]
]

-- Two tables of level 0 are the same page or have no byte in common.
apart_aligned :
    (t p j : ℕ)
    → t % page_size ≡ 0
    → p % page_size ≡ 0
    → (t ≡ p → ⊥)
    → InPage t j
    → Out p page_size j
apart_aligned t p j ht hp ne i = elim (Bool-cases (ltb t p)) [
  | inl e ↦ let less = ltb→lt t p e in inl (omega (arith, ht, hp, less, i.1))
  | inr e ↦ elim (Bool-cases (ltb p t)) [
    | inl u ↦ let less = ltb→lt p t u in inr (omega (arith, ht, hp, less, i.0))
    | inr u ↦ absurd (ne (omega (arith, ltb-false→le t p e, ltb-false→le p t u)))
  ]
]

module _ (T : ℕ → Type 0) where
  pub leaf-Cowed : Cows T 0
  unfolding pages
  leaf-Cowed m p c r =
      let apart = apart_pages p c (λ j i. r.off j i p r.tree) in
      let (m', run, x) = each_valid-Shared p c apart num_pte_entries 0 m (omega arith) (record {
        ok = r.ok;
        same = λ k lo up. ap fields (r.same k up);
        inside = λ k lo up h. r.leaves.inside p r.tree k up h;
      }) in
      let count : used m' ≡ used m = ap (λ a. count_allocated a 0 max_pages) x.pages.allocated in
      let forks : Forks T (Out c page_size) m m' = record {
        ok = x.pages.ok;
        base = x.pages.base;
        root = x.pages.root;
        grows = λ k h. ap (λ a. a k) x.pages.allocated ∙ h;
        kept = λ j h o off. x.kept j (table p j (off p r.tree)) (table c j o);
        leaf = λ t h k small. elim (Bool-cases (t == p)) [
          | inl e ↦
              let same : p ≡ t = ground arith in
              subst (λ z. Softer (fields (entry_of m.bytes z k)) (fields (entry_of m'.bytes z k)))
                same (inr (x.parent k (omega arith) small))
          | inr e ↦
              let ne : t ≡ p → ⊥ = λ q. ground (arith, e, q) in
              inl (
                ap fields (
                  entry_of-same m.bytes m'.bytes t k small (λ j i.
                    x.kept j
                      (table p j (
                        apart_aligned t p j (r.leaves.aligned t h) (r.leaves.aligned p r.tree) ne
                          i))
                      (table c j (outside t j h i)))))
        ];
      } in
      (
        m',
        run,
        record {
          forks = forks;
          counted = omega (arith, count);
          copy = λ k h. (x.parent k (omega arith) h, x.child k (omega arith) h);
          fresh = λ j i. (Held-Forks forks (r.held j i), inl i);
        },
      )
    where
      table : (t j : ℕ) → Out t page_size j → Out (t + 8 * 0) (8 * num_pte_entries) j
      table t j (inl h) = inl (omega (arith, h))
      table t j (inr h) = inr (omega (arith, h))

      outside : (t j : ℕ) → T t → InPage t j → Out c page_size j
      outside t j h i = elim (Out-or-InPage c j) [
        | inl o ↦ o
        | inr k ↦ elim (r.off j k t h) [
          | inl a ↦ absurd (omega (arith, a, i.0))
          | inr a ↦ absurd (omega (arith, a, i.1))
        ]
      ]

abbrev pub Own : (ℕ → Type 0) → Machine → ℕ → Type 0
Own T m j = Held m j × Off T j

Tree-Held :
    (T : ℕ → Type 0) (m : Machine) (l t : ℕ)
    → Leaves T m
    → Tree T (Own T m) l m.bytes t
    → (j : ℕ) → InPage t j
    → Held m j
Tree-Held T m zero t leaves w j i = leaves.held t w j i
Tree-Held T m (suc l) t leaves w j i = (w.0 j i).0

-- A new table that is a copy on write of that at `from`.
pub record Twin (T : ℕ → Type 0) (l : ℕ) (m : Machine) (from child : ℕ) (a : ℕ → Bool) (n : ℕ)
    (m' : Machine) : Type 0 where
  pub page : Granted m from child a n
  pub runs : recursive_cow l from child (took a n m) ≡ done tt m'
  pub forks : Forks T (λ j. Unit {0}) m m'
  pub counted : used m' ≡ used m + suc (pages l m.bytes from)
  pub copy : CowOf l m.bytes m'.bytes from child
  pub fresh : Within (λ j. Held m' j × Fresh m j) l m'.bytes child

pub new_child :
    (T : ℕ → Type 0) (l : ℕ) (ih : Cows T l) (m : Machine) (from : ℕ)
    → Ok m
    → Leaves T m
    → Tree T (Own T m) l m.bytes from
    → used m + suc (pages l m.bytes from) ≤ max_pages
    → (child : ℕ) × (a : ℕ → Bool) × (n : ℕ) × (m' : Machine) × Twin T l m from child a n m'
new_child T l ih m from ok leaves tree room =
    let (child, a, n, page) = vms_new_page-Granted m from ok (omega (arith, room)) in
    let x = page.extends in
    let m₂ = filled child from (took a n m) in
    let f = Extends-Forks {T = T} x leaves (λ t h j i. tt) in
    let out : (j : ℕ) → Held m j → Out child page_size j = λ j h. Held-Out h page.fresh in
    let count = pages-Tree T (Own T m) l m.bytes m₂.bytes from tree (λ j h. x.kept j h.0 tt) in
    let (m', runs, copied) = ih m₂ from child (record {
      ok = x.ok;
      leaves = Leaves-Forks f leaves;
      tree =
          Tree-same T (Own T m) (Upper T m₂ child) l m.bytes m₂.bytes from tree
            (λ j h. (Held-Extends x h.0, out j h.0, h.1)) (λ j h. x.kept j h.0 tt);
      held = page.held;
      off = Out-Off T child (λ t h j i. out j (leaves.held t h j i));
      same = λ k h.
          filled-child (took a n m) from child k h
          ∙ sym (
              entry_of-same m.bytes m₂.bytes from k h
                (λ j i. x.kept j (Tree-Held T m l from leaves tree j i) tt));
      room = omega (arith, page.counted, count, room);
    }) in
    (
      child,
      a,
      n,
      m',
      record {
        page = page;
        runs = recursive_cow-level l from child (took a n m) ∙ runs;
        forks = Forks-trans f copied.forks (λ j h u. tt) (λ j h u. out j h);
        counted = omega (arith, copied.counted, page.counted, count);
        copy =
            CowOf-earlier T (Own T m) l m.bytes m₂.bytes m'.bytes from child tree
              (λ j h. x.kept j h.0 tt) f.leaf copied.copy;
        fresh =
            Within-same _ (λ j. Held m' j × Fresh m j) l m'.bytes m'.bytes child copied.fresh
              (λ j h. (h.0, elim h.1 [ inl i ↦ page.fresh j i | inr g ↦ Fresh-Extends x g ]))
              (λ j h. refl);
      },
    )
