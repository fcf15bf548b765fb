-- ===== src/Vms/Allocator.antt =====
-- vms/src/pages.c: which page the allocator gives, and the count of the pages in use.
use yep.Common.{
  ℕ, ◌+◌, ◌-◌, ◌*◌, ◌%◌, ◌^◌, ◌≤◌, ◌<◌, ◌≡◌, ◌≢◌, refl, sym, subst, ap, ◌∙◌, Bool, true, false,
  zero, suc, arith, ◌==◌, if◌then◌else◌, Bool-cases, inl, inr,
}
use yep.Vms.Machine.{Machine, done, exits, page_size, max_pages, in_page}
use yep.Vms.Pages.{
  vms_get_page_pointer, vms_get_page_index, new_page_from, vms_new_page, vms_free_page,
  set_allocated,
}

-- The pages in use among `n` from page `i` on.
unfoldable pub count_allocated : (ℕ → Bool) → ℕ → ℕ → ℕ
count_allocated a i zero = 0
count_allocated a i (suc n) = (if a i then 1 else 0) + count_allocated a (i + 1) n

-- The allocator's own count is the number of pages in use.
abbrev pub IsCounted : Machine → Type 0
IsCounted m = m.used_pages ≡ count_allocated m.allocated 0 max_pages

count_allocated-below :
    (m : Machine) (j : ℕ) (b : Bool) (i n : ℕ)
    → j < i
    → count_allocated (set_allocated m j b) i n ≡ count_allocated m.allocated i n
unfolding count_allocated
count_allocated-below m j b i zero h = refl
count_allocated-below m j b i (suc n) h =
    ground (arith, count_allocated-below m j b (i + 1) n (omega arith))

-- Taking a page that is free adds one to the count.
pub count_allocated-taken :
    (m : Machine) (j i n : ℕ)
    → i ≤ j
    → j < i + n
    → m.allocated j ≡ false
    → count_allocated (set_allocated m j true) i n ≡ count_allocated m.allocated i n + 1
unfolding count_allocated
count_allocated-taken m j i zero h k f = absurd (omega arith)
count_allocated-taken m j i (suc n) h k f = elim (Bool-cases (i == j)) [
  | inl e ↦ ground (arith, count_allocated-below m j true (i + 1) n (ground arith))
  | inr e ↦ ground (arith, count_allocated-taken m j (i + 1) n (ground arith) (omega arith) f)
]

-- The loop from page `i` on stops at the first free page, if there is one before page `i + n`.
new_page_from-first :
    (m : Machine) (j i n : ℕ)
    → i ≤ j
    → j < i + n
    → m.allocated j ≡ false
    → ((k : ℕ) → i ≤ k → k < j → m.allocated k ≡ true)
    → new_page_from i n m
      ≡ done
          (vms_get_page_pointer m j)
          (record m { allocated = set_allocated m j true; used_pages = m.used_pages + 1 })
unfolding new_page_from
new_page_from-first m j i zero h k f full = absurd (omega arith)
new_page_from-first m j i (suc n) h k f full = elim (Bool-cases (i == j)) [
  | inl e ↦ let same : i ≡ j = ground arith in rw same (ground (arith, f))
  | inr e ↦ ground (
    arith,
    full i (omega arith) (ground arith),
    new_page_from-first m j (i + 1) n (ground arith) (omega arith) f
        (λ k l u. full k (omega arith) u),
  )
]

new_page_from-full :
    (m : Machine) (i n : ℕ)
    → ((k : ℕ) → i ≤ k → k < i + n → m.allocated k ≡ true)
    → new_page_from i n m ≡ exits
unfolding new_page_from
new_page_from-full m i zero full = refl
new_page_from-full m i (suc n) full = ground (
  arith,
  full i (omega arith) (omega arith),
  new_page_from-full m (i + 1) n (λ k l u. full k (omega arith) (omega arith)),
)

-- Where not all pages are in use there is a first one that is not.
pub first_free :
    (a : ℕ → Bool) (i n : ℕ)
    → count_allocated a i n < n
    → (j : ℕ) × (i ≤ j) × (j < i + n) × (a j ≡ false) × ((k : ℕ) → i ≤ k → k < j → a k ≡ true)
unfolding count_allocated
first_free a i zero h = absurd (omega arith)
first_free a i (suc n) h = elim (Bool-cases (a i)) [
  | inr e ↦ (i, omega arith, omega arith, e, λ k l u. absurd (omega arith))
  | inl e ↦
      let (j, lo, up, free, full) = first_free a (i + 1) n (ground (arith, e, h)) in
      (
        j,
        omega arith,
        omega arith,
        free,
        λ k l u. elim (Bool-cases (i == k)) [
          | inl same ↦ subst (λ x. a x ≡ true) (ground arith) e
          | inr other ↦ full k (ground arith) u
        ],
      )
]

-- With all 256 pages in use, `vms_new_page` ends the process.
pub vms_new_page-full :
    (m : Machine) → ((k : ℕ) → k < max_pages → m.allocated k ≡ true) → vms_new_page m ≡ exits
unfolding vms_new_page
vms_new_page-full m full = new_page_from-full m 0 max_pages (λ k l u. full k (omega arith))

module _ (m : Machine) (j : ℕ) (small : j < max_pages) (free : m.allocated j ≡ false)
    (full : (k : ℕ) → k < j → m.allocated k ≡ true) where
  abbrev pub taken : Machine
  taken = record m { allocated = set_allocated m j true; used_pages = m.used_pages + 1 }

  pub vms_new_page-taken : vms_new_page m ≡ done (vms_get_page_pointer m j) taken
  unfolding vms_new_page
  vms_new_page-taken =
      new_page_from-first m j 0 max_pages (omega arith) (omega arith) free (λ k l u. full k u)

  -- `vms_new_page` returns the address of the first page that is not in use. The page is then in
  -- use, the other pages are as before, and if the allocator's count was the number of the pages in
  -- use, it is again.
  pub vms_new_page-first :
      (m' : Machine) × (vms_new_page m ≡ done (vms_get_page_pointer m j) m')
      × (m'.allocated j ≡ true)
      × ((k : ℕ) → j ≢ k → m'.allocated k ≡ m.allocated k)
      × (IsCounted m → IsCounted m')
  vms_new_page-first = (
    taken,
    vms_new_page-taken,
    ground arith,
    λ k ne. ground arith,
    λ counted.
        ap (λ n. n + 1) counted
        ∙ sym (count_allocated-taken m j 0 max_pages (omega arith) (omega arith) free),
  )

  page_index :
      m.base + max_pages * page_size ≤ 2 ^ 64 → vms_get_page_index m (vms_get_page_pointer m j) ≡ j
  unfolding vms_get_page_index vms_get_page_pointer
  page_index fits = omega arith

  -- Freeing the page that `vms_new_page` has just given, in a region at an aligned base that ends at
  -- 2 ^ 64 at most, returns: the pages in use, their count and the base are as before the two calls,
  -- the bytes of the page are 0 and the other bytes are as before.
  pub vms_new_page-vms_free_page :
      m.base % page_size ≡ 0
      → m.base + max_pages * page_size ≤ 2 ^ 64
      → (m' : Machine) × (s : Machine) × (vms_new_page m ≡ done (vms_get_page_pointer m j) m')
        × (vms_free_page (vms_get_page_pointer m j) m' ≡ done tt s)
        × ((k : ℕ) → s.allocated k ≡ m.allocated k)
        × (s.used_pages ≡ m.used_pages)
        × (s.base ≡ m.base)
        × ((a : ℕ) → s.bytes a ≡ (if in_page (vms_get_page_pointer m j) a then 0 else m.bytes a))
  unfolding vms_free_page
  vms_new_page-vms_free_page aligned fits =
      let p = vms_get_page_pointer m j in
      let i : vms_get_page_index taken p ≡ j = unfold vms_get_page_index in page_index fits in
      let a : p % page_size ≡ 0 = unfold vms_get_page_pointer in omega arith in
      (
        taken,
        record m {
          allocated = λ k. if j == k then false else taken.allocated k;
          used_pages = m.used_pages + 1 - 1;
          bytes = λ b. if in_page p b then 0 else m.bytes b;
        },
        vms_new_page-taken,
        ground (arith, i, a),
        λ k. ground (arith, free),
        omega arith,
        refl,
        λ b. refl,
      )
