-- ===== src/Vms/Copy/Memory.antt =====
-- vms/src: the pages of the region that are in use, and what a call leaves unchanged.
use mathlib.Core.Path.{fun_ext}
use yep.Common.{
  ℕ, zero, suc, ◌+◌, ◌*◌, ◌/◌, ◌%◌, ◌^◌, ◌≤◌, ◌<◌, ◌≡◌, refl, subst, ap, ap₂, ◌∙◌, ◌⊎◌, true, false,
  arith, ◌==◌, if◌then◌else◌, Bool-cases, inl, inr,
}
use yep.Vms.Machine.{Machine, page_size, max_pages, load_bytes, store_bytes}
use yep.Vms.Allocator.{count_allocated}

abbrev pub InPage : ℕ → ℕ → Type 0
InPage page j = (page ≤ j) × (j < page + page_size)

abbrev pub Out : ℕ → ℕ → ℕ → Type 0
Out a n j = (j < a) ⊎ (a + n ≤ j)

-- The address of a page of the region.
abbrev pub page_at : Machine → ℕ → ℕ
page_at m k = m.base + k * page_size

-- An address outside the region or in a page in use.
pub record Held (m : Machine) (j : ℕ) : Type 0 where
  pub taken : (k : ℕ) → k < max_pages → InPage (page_at m k) j → m.allocated k ≡ true

-- An address in a page that is not in use.
pub record Fresh (m : Machine) (j : ℕ) : Type 0 where
  pub index : ℕ
  pub small : index < max_pages
  pub inside : InPage (page_at m index) j
  pub free : m.allocated index ≡ false

-- The region is at a page's address below 2 ^ 56, which is where the page numbers of entries end,
-- and memory holds bytes.
pub record Ok (m : Machine) : Type 0 where
  pub aligned : m.base % page_size ≡ 0
  pub fits : m.base + max_pages * page_size ≤ 2 ^ 56
  pub bytes : (j : ℕ) → m.bytes j < 256

abbrev pub used : Machine → ℕ
used m = count_allocated m.allocated 0 max_pages

-- Pages may have been taken, and the bytes in `P` are as before, those that were held and those of
-- pages that are not in use after it.
pub record Extends (P : ℕ → Type 0) (m m' : Machine) : Type 0 where
  pub ok : Ok m'
  pub base : m'.base ≡ m.base
  pub root : m'.root ≡ m.root
  pub arr : (k : ℕ) → m'.arr k ≡ m.arr k
  pub grows : (k : ℕ) → m.allocated k ≡ true → m'.allocated k ≡ true
  pub kept : (j : ℕ) → Held m j → P j → m'.bytes j ≡ m.bytes j
  pub idle : (j : ℕ) → Fresh m' j → P j → m'.bytes j ≡ m.bytes j

pub Held-Fresh : {m : Machine} {j : ℕ} → Held m j → Fresh m j → ⊥
Held-Fresh h f = absurd (ground (arith, h.taken f.index f.small f.inside, f.free))

module _ {P : ℕ → Type 0} {m m' : Machine} (e : Extends P m m') where
  pub Held-Extends : {j : ℕ} → Held m j → Held m' j
  Held-Extends {j} h = record {
    taken = λ k l i. e.grows k (h.taken k l (subst (λ b. InPage (b + k * page_size) j) e.base i));
  }

  pub Fresh-Extends : {j : ℕ} → Fresh m' j → Fresh m j
  Fresh-Extends {j} f = record {
    index = f.index;
    small = f.small;
    inside = subst (λ b. InPage (b + f.index * page_size) j) e.base f.inside;
    free = elim (Bool-cases (m.allocated f.index)) [
      | inl a ↦ absurd (ground (arith, e.grows f.index a, f.free))
      | inr a ↦ a
    ];
  }

pub Extends-refl : {P : ℕ → Type 0} {m : Machine} → Ok m → Extends P m m
Extends-refl o = record {
  ok = o;
  base = refl;
  root = refl;
  arr = λ k. refl;
  grows = λ k h. h;
  kept = λ j h p. refl;
  idle = λ j f p. refl;
}

pub Extends-trans :
    {P Q R : ℕ → Type 0} {m₁ m₂ m₃ : Machine}
    → Extends P m₁ m₂
    → Extends Q m₂ m₃
    → ((j : ℕ) → Held m₁ j → R j → P j)
    → ((j : ℕ) → Held m₁ j → R j → Q j)
    → ((j : ℕ) → Fresh m₃ j → R j → P j × Q j)
    → Extends R m₁ m₃
Extends-trans a b p q f = record {
  ok = b.ok;
  base = b.base ∙ a.base;
  root = b.root ∙ a.root;
  arr = λ k. b.arr k ∙ a.arr k;
  grows = λ k h. b.grows k (a.grows k h);
  kept = λ j h r. b.kept j (Held-Extends a h) (q j h r) ∙ a.kept j h (p j h r);
  idle = λ j g r. b.idle j g (f j g r).1 ∙ a.idle j (Fresh-Extends b g) (f j g r).0;
}

-- What is loaded depends on the bytes that are loaded, and is a number of so many bytes.
pub load_bytes-same :
    (n a a' : ℕ) (b b' : ℕ → ℕ)
    → ((o : ℕ) → o < n → b' (a' + o) ≡ b (a + o))
    → load_bytes n a' b' ≡ load_bytes n a b
unfolding load_bytes
load_bytes-same zero a a' b b' h = refl
load_bytes-same (suc n) a a' b b' h =
    let first : b' a' ≡ b a = ap b' (omega arith) ∙ h 0 (omega arith) ∙ ap b (omega arith) in
    let rest =
      load_bytes-same n (a + 1) (a' + 1) b b'
        (λ o l. ap b' (omega arith) ∙ h (suc o) (omega arith) ∙ ap b (omega arith)) in
    ap₂ (λ x y. x + 256 * y) first rest

pub load_bytes-small : (a : ℕ) (b : ℕ → ℕ) → ((j : ℕ) → b j < 256) → load_bytes 8 a b < 2 ^ 64
unfolding load_bytes
load_bytes-small a b h = omega (
  arith,
  h a,
  h (a + 1),
  h (a + 1 + 1),
  h (a + 1 + 1 + 1),
  h (a + 1 + 1 + 1 + 1),
  h (a + 1 + 1 + 1 + 1 + 1),
  h (a + 1 + 1 + 1 + 1 + 1 + 1),
  h (a + 1 + 1 + 1 + 1 + 1 + 1 + 1),
)

pub store_bytes-small :
    (n a v : ℕ) (b : ℕ → ℕ) → ((j : ℕ) → b j < 256) → (j : ℕ) → store_bytes n a v b j < 256
unfolding store_bytes
store_bytes-small zero a v b h j = h j
store_bytes-small (suc n) a v b h j =
    store_bytes-small n (a + 1) (v / 256) (λ i. if a == i then v % 256 else b i)
      (λ i. ground (arith, h i)) j

-- To store what is loaded changes nothing.
pub store_bytes-load_bytes :
    (n a : ℕ) (b : ℕ → ℕ) → ((j : ℕ) → b j < 256) → store_bytes n a (load_bytes n a b) b ≡ b
unfolding store_bytes load_bytes
store_bytes-load_bytes zero a b h = refl
store_bytes-load_bytes (suc n) a b h =
    let rest = load_bytes n (a + 1) b in
    let low : (b a + 256 * rest) % 256 ≡ b a = omega (arith, h a) in
    let high : (b a + 256 * rest) / 256 ≡ rest = omega (arith, h a) in
    let back : (λ i. if a == i then (b a + 256 * rest) % 256 else b i) ≡ b = fun_ext (λ i.
      elim (Bool-cases (a == i)) [
        | inl e ↦ let same : a ≡ i = ground arith in ground (arith, e, low, ap b same)
        | inr e ↦ ground (arith, e)
      ]) in
    ap₂ (λ v g. store_bytes n (a + 1) v g) high back ∙ store_bytes-load_bytes n (a + 1) b h
