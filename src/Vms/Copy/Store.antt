-- ===== src/Vms/Copy/Store.antt =====
-- vms/src/vms.c, `vms_fork_copy`: a page's number goes into an entry.
use yep.Common.{
  ℕ, ◌+◌, ◌*◌, ◌%◌, ◌^◌, ◌<◌, ◌≡◌, refl, ap, ◌∙◌, ◌⊎◌, arith, leb, ltb, Bool-cases, inl, inr,
}
use yep.Vms.Pte.{vms_pte_set_ppn}
use yep.Vms.Machine.{Machine, page_size, load_bytes, store_bytes}
use yep.Vms.Entry.{Fields, fields, fields-set_ppn}
use yep.Vms.Access.{load_bytes-store_bytes, store_bytes-outside}
use yep.Vms.Flags.{low_bytes-fields}
use yep.Vms.PageTable.{vms_ppn_to_page}
use yep.Vms.Copy.Memory.{
  InPage, Out, Held, Fresh, Ok, Extends, Held-Fresh, load_bytes-small, store_bytes-small,
}
use yep.Vms.Copy.Idle.{SameFlags}
use yep.Vms.Copy.Tree.{next}

-- The entry `e'` is `e` but for the page that it points to.
pub record Points (e e' page : ℕ) : Type 0 where
  pub flags : SameFlags e e'
  pub to : next e' ≡ page

fields-Points :
    (e e' ppn page : ℕ)
    → fields e' ≡ record (fields e) { ppn = ppn }
    → vms_ppn_to_page ppn ≡ page
    → Points e e' page
unfolding fields
fields-Points e e' ppn page h back = record {
  flags = record {
    valid = ap (λ (f : Fields). f.valid) h;
    read = ap (λ (f : Fields). f.read) h;
    write = ap (λ (f : Fields). f.write) h;
    custom = ap (λ (f : Fields). f.custom) h;
  };
  to = ap (λ (f : Fields). vms_ppn_to_page f.ppn) h ∙ back;
}

pub store_bytes-Points :
    (b : ℕ → ℕ) (a e ppn page : ℕ)
    → ((j : ℕ) → b j < 256)
    → load_bytes 8 a b ≡ e
    → vms_ppn_to_page (ppn % 2 ^ 44) ≡ page
    → Points e (load_bytes 8 a (store_bytes 8 a (vms_pte_set_ppn (load_bytes 8 a b) ppn) b)) page
store_bytes-Points b a e ppn page small h back =
    let v = vms_pte_set_ppn (load_bytes 8 a b) ppn in
    fields-Points e (load_bytes 8 a (store_bytes 8 a v b)) (ppn % 2 ^ 44) page
      (ap fields (load_bytes-store_bytes 8 a v b)
        ∙ low_bytes-fields v
        ∙ fields-set_ppn (load_bytes 8 a b) ppn (load_bytes-small a b small)
        ∙ ap (λ x. record (fields x) { ppn = ppn % 2 ^ 44 }) h)
      back

-- The machine after a store of an entry.
abbrev pub stored : ℕ → ℕ → Machine → Machine
stored a v m = record m { bytes = store_bytes 8 a v m.bytes }

pub stored-Extends : (a v : ℕ) (m : Machine) → Ok m → Extends (Out a 8) m (stored a v m)
stored-Extends a v m ok = record {
  ok = record {
    aligned = ok.aligned;
    fits = ok.fits;
    bytes = store_bytes-small 8 a v m.bytes ok.bytes;
  };
  base = refl;
  root = refl;
  arr = λ k. refl;
  grows = λ k h. h;
  kept = λ j h o. store_bytes-outside 8 a v m.bytes j o;
  idle = λ j f o. store_bytes-outside 8 a v m.bytes j o;
}

pub Out-or-InPage : (page j : ℕ) → Out page page_size j ⊎ InPage page j
Out-or-InPage page j = elim (Bool-cases (leb page j)) [
  | inr e ↦ inl (inl (ground (arith, e)))
  | inl e ↦ elim (Bool-cases (ltb j (page + page_size))) [
    | inr u ↦ inl (inr (ground (arith, u)))
    | inl u ↦ inr (ground (arith, e), ground (arith, u))
  ]
]

-- What is held is not in a page that is not in use.
pub Held-Out :
    {m : Machine} {page j : ℕ}
    → Held m j
    → ((i : ℕ) → InPage page i → Fresh m i)
    → Out page page_size j
Held-Out {m} {page} {j} h fresh = elim (Out-or-InPage page j) [
  | inl o ↦ o
  | inr i ↦ absurd (Held-Fresh h (fresh j i))
]

pub Out-entry : (c i j : ℕ) → i < 512 → Out c page_size j → Out (c + 8 * i) 8 j
Out-entry c i j h (inl o) = inl (omega arith)
Out-entry c i j h (inr o) = inr (omega arith)
