-- ===== src/Vms/Copy/Page.antt =====
-- vms/src/vms.c, `vms_fork_copy`: a new page that is filled from another one.
use yep.Common.{
  ℕ, ◌+◌, ◌-◌, ◌%◌, ◌^◌, ◌<◌, ◌≡◌, refl, Bool, true, arith, if◌then◌else◌, Bool-cases, inl, inr,
}
use yep.Vms.Machine.{Machine, done, page_size, max_pages, in_page}
use yep.Vms.Pages.{vms_new_page, vms_get_page_pointer, set_allocated}
use yep.Vms.PageTable.{vms_page_to_ppn, vms_ppn_to_page}
use yep.Vms.Numbers.{vms_page_to_ppn-vms_ppn_to_page}
use yep.Vms.Allocator.{first_free, vms_new_page-taken, count_allocated-taken}
use yep.Vms.Copy.Memory.{InPage, page_at, Held, Fresh, Ok, used, Extends, Held-Fresh}

-- The machine after a new page has been taken and filled from the page at `from`.
abbrev pub filled : ℕ → ℕ → Machine → Machine
filled to from m = record m {
  bytes = λ j. if in_page to j then m.bytes (from + (j - to)) else m.bytes j;
}

pub in_page-InPage : (p j : ℕ) → in_page p j ≡ true → InPage p j
in_page-InPage p j h = (ground (arith, h), ground (arith, h))

-- The machine after a new page has been taken.
abbrev pub took : (ℕ → Bool) → ℕ → Machine → Machine
took a n m = record m { allocated = a; used_pages = n }

-- The address `child` of a page that was not in use, and the array and the count with it.
pub record Granted (m : Machine) (from : ℕ) (child : ℕ) (a : ℕ → Bool) (n : ℕ) : Type 0 where
  pub runs : vms_new_page m ≡ done child (took a n m)
  pub extends : Extends (λ j. Unit {0}) m (filled child from (took a n m))
  pub counted : used (filled child from (took a n m)) ≡ used m + 1
  pub held : (j : ℕ) → InPage child j → Held (filled child from (took a n m)) j
  pub fresh : (j : ℕ) → InPage child j → Fresh m j
  pub same :
      (o : ℕ)
      → o < page_size
      → (filled child from (took a n m)).bytes (child + o) ≡ m.bytes (from + o)
  pub aligned : child % page_size ≡ 0
  pub low : child < 2 ^ 56

pub vms_new_page-Granted :
    (m : Machine) (from : ℕ)
    → Ok m
    → used m < max_pages
    → (child : ℕ) × (a : ℕ → Bool) × (n : ℕ) × Granted m from child a n
unfolding vms_get_page_pointer
vms_new_page-Granted m from ok room =
    let (k, lo, small, free, full) = first_free m.allocated 0 max_pages room in
    let small' : k < max_pages = omega arith in
    let full' : (i : ℕ) → i < k → m.allocated i ≡ true = λ i h. full i (omega arith) h in
    let fresh : (j : ℕ) → InPage (page_at m k) j → Fresh m j =
      λ j i. record { index = k; small = small'; inside = i; free = free } in
    (
      page_at m k,
      set_allocated m k true,
      m.used_pages + 1,
      record {
        runs = vms_new_page-taken m k small' free full';
        extends = record {
          ok = record {
            aligned = ok.aligned;
            fits = ok.fits;
            bytes = λ j. ground (arith, ok.bytes j, ok.bytes (from + (j - page_at m k)));
          };
          base = refl;
          root = refl;
          arr = λ i. refl;
          grows = λ i h. ground (arith, h);
          kept = λ j h u. elim (Bool-cases (in_page (page_at m k) j)) [
            | inl e ↦ absurd (Held-Fresh h (fresh j (in_page-InPage (page_at m k) j e)))
            | inr e ↦ ground (arith, e)
          ];
          idle = λ j f u. elim (Bool-cases (in_page (page_at m k) j)) [
            | inl e ↦
                let i = in_page-InPage (page_at m k) j e in
                let same : k ≡ f.index = omega (arith, i.0, i.1, f.inside.0, f.inside.1) in
                absurd (ground (arith, f.free, same))
            | inr e ↦ ground (arith, e)
          ];
        };
        counted = count_allocated-taken m k 0 max_pages (omega arith) (omega arith) free;
        held = λ j i. record { taken = λ n l i'. ground arith };
        fresh = fresh;
        same = λ o h.
            let inside : in_page (page_at m k) (page_at m k + o) ≡ true = ground arith in
            let there : from + (page_at m k + o - page_at m k) ≡ from + o = omega arith in
            simp (inside, there) refl;
        aligned = omega (arith, ok.aligned);
        low = omega (arith, ok.fits);
      },
    )

-- The number of such a page fits an entry, and leads back to the page.
pub vms_page_to_ppn-low :
    (m : Machine) (page : ℕ)
    → page % page_size ≡ 0
    → page < 2 ^ 56
    → (ppn : ℕ) × (vms_page_to_ppn page m ≡ done ppn m) × (vms_ppn_to_page (ppn % 2 ^ 44) ≡ page)
unfolding vms_ppn_to_page
vms_page_to_ppn-low m page aligned low =
    let (ppn, runs, small, back) = vms_page_to_ppn-vms_ppn_to_page m page (omega arith) aligned in
    (ppn, runs, omega (arith, back))
