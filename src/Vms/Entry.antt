-- ===== src/Vms/Entry.antt =====
-- vms/src/pte.c: what each operation changes of an entry, and that it changes nothing else.
use Prim.Native.Nat.{bit_and, bit_or}
use yep.Common.{
  ℕ, ◌+◌, ◌*◌, ◌/◌, ◌%◌, ◌^◌, ◌<◌, ◌≡◌, refl, ◌∙◌, ap₂, Bool, true, false, not, arith, ◌==◌,
}
use yep.Common.Bits.{
  bit_and-flag, bit_or-flag, bit_and-clear, bit_and-shift, bit_and-low, bit_and-mask, bit_or-shift,
  bit_or-low, bit_or-zero, zero-bit_or, join,
}
use yep.Vms.Pte.{
  pte_custom, pte_write, pte_read, pte_valid, complement, vms_pte_valid_clear, vms_pte_valid_set,
  vms_pte_valid, vms_pte_read_clear, vms_pte_read_set, vms_pte_read, vms_pte_write_clear,
  vms_pte_write_set, vms_pte_write, vms_pte_custom_clear, vms_pte_custom_set, vms_pte_custom,
  ppn_mask, vms_pte_get_ppn, vms_pte_set_ppn,
}

-- What the other parts read of an entry.
pub record Fields : Type 0 where
  pub custom : Bool
  pub write : Bool
  pub read : Bool
  pub valid : Bool
  pub ppn : ℕ

unfoldable pub fields : ℕ → Fields
fields entry = record {
  custom = vms_pte_custom entry;
  write = vms_pte_write entry;
  read = vms_pte_read entry;
  valid = vms_pte_valid entry;
  ppn = vms_pte_get_ppn entry;
}

-- The fields by division.
abbrev pub bit : ℕ → ℕ → Bool
bit k e = not (e / 2 ^ k % 2 == 0)

pub flag_valid : (e : ℕ) → vms_pte_valid e ≡ bit 0 e
unfolding vms_pte_valid
flag_valid e = ground (arith, bit_and-flag 0 e pte_valid refl refl)

pub flag_read : (e : ℕ) → vms_pte_read e ≡ bit 1 e
unfolding vms_pte_read
flag_read e = ground (arith, bit_and-flag 1 e pte_read refl refl)

pub flag_write : (e : ℕ) → vms_pte_write e ≡ bit 2 e
unfolding vms_pte_write
flag_write e = ground (arith, bit_and-flag 2 e pte_write refl refl)

pub flag_custom : (e : ℕ) → vms_pte_custom e ≡ bit 8 e
unfolding vms_pte_custom
flag_custom e = ground (arith, bit_and-flag 8 e pte_custom refl refl)

pub get_ppn-div : (e : ℕ) → vms_pte_get_ppn e ≡ e / 2 ^ 10 % 2 ^ 44
unfolding vms_pte_get_ppn
get_ppn-div e = bit_and-shift 10 e ppn_mask ∙ bit_and-mask 44 (e / 2 ^ 10)

-- The fields from the numbers that they are read from.
abbrev of_parts : ℕ → ℕ → ℕ → ℕ → ℕ → Fields
of_parts c w r v p = record {
  custom = not (c == 0);
  write = not (w == 0);
  read = not (r == 0);
  valid = not (v == 0);
  ppn = p;
}

pub fields-of_parts :
    (x c w r v p : ℕ)
    → x / 2 ^ 8 % 2 ≡ c
    → x / 2 ^ 2 % 2 ≡ w
    → x / 2 ^ 1 % 2 ≡ r
    → x / 2 ^ 0 % 2 ≡ v
    → x / 2 ^ 10 % 2 ^ 44 ≡ p
    → fields x ≡ of_parts c w r v p
unfolding fields
fields-of_parts x c w r v p hc hw hr hv hp =
    rw (flag_valid x, flag_read x, flag_write x, flag_custom x, get_ppn-div x, hc, hw, hr, hv, hp)

pub fields-div :
    (e : ℕ)
    → fields e
      ≡ of_parts
          (e / 2 ^ 8 % 2)
          (e / 2 ^ 2 % 2)
          (e / 2 ^ 1 % 2)
          (e / 2 ^ 0 % 2)
          (e / 2 ^ 10 % 2 ^ 44)
fields-div e = fields-of_parts e _ _ _ _ _ refl refl refl refl refl

set_valid : (e : ℕ) → fields (vms_pte_valid_set e) ≡ record (fields e) { valid = true }
unfolding vms_pte_valid_set
set_valid e =
    let value : bit_or e pte_valid ≡ (e / 2 ^ 0 / 2 * 2 + 1) * 2 ^ 0 + e % 2 ^ 0 =
      bit_or-flag 0 e pte_valid refl refl in
    fields-of_parts (bit_or e pte_valid) (e / 2 ^ 8 % 2) (e / 2 ^ 2 % 2) (e / 2 ^ 1 % 2) 1
      (e / 2 ^ 10 % 2 ^ 44) (omega (arith, value)) (omega (arith, value)) (omega (arith, value))
      (omega (arith, value)) (omega (arith, value))
    ∙ rw (fields-div e)

set_read : (e : ℕ) → fields (vms_pte_read_set e) ≡ record (fields e) { read = true }
unfolding vms_pte_read_set
set_read e =
    let value : bit_or e pte_read ≡ (e / 2 ^ 1 / 2 * 2 + 1) * 2 ^ 1 + e % 2 ^ 1 =
      bit_or-flag 1 e pte_read refl refl in
    fields-of_parts (bit_or e pte_read) (e / 2 ^ 8 % 2) (e / 2 ^ 2 % 2) 1 (e / 2 ^ 0 % 2)
      (e / 2 ^ 10 % 2 ^ 44) (omega (arith, value)) (omega (arith, value)) (omega (arith, value))
      (omega (arith, value)) (omega (arith, value))
    ∙ rw (fields-div e)

set_write : (e : ℕ) → fields (vms_pte_write_set e) ≡ record (fields e) { write = true }
unfolding vms_pte_write_set
set_write e =
    let value : bit_or e pte_write ≡ (e / 2 ^ 2 / 2 * 2 + 1) * 2 ^ 2 + e % 2 ^ 2 =
      bit_or-flag 2 e pte_write refl refl in
    fields-of_parts (bit_or e pte_write) (e / 2 ^ 8 % 2) 1 (e / 2 ^ 1 % 2) (e / 2 ^ 0 % 2)
      (e / 2 ^ 10 % 2 ^ 44) (omega (arith, value)) (omega (arith, value)) (omega (arith, value))
      (omega (arith, value)) (omega (arith, value))
    ∙ rw (fields-div e)

set_custom : (e : ℕ) → fields (vms_pte_custom_set e) ≡ record (fields e) { custom = true }
unfolding vms_pte_custom_set
set_custom e =
    let value : bit_or e pte_custom ≡ (e / 2 ^ 8 / 2 * 2 + 1) * 2 ^ 8 + e % 2 ^ 8 =
      bit_or-flag 8 e pte_custom refl refl in
    fields-of_parts (bit_or e pte_custom) 1 (e / 2 ^ 2 % 2) (e / 2 ^ 1 % 2) (e / 2 ^ 0 % 2)
      (e / 2 ^ 10 % 2 ^ 44) (omega (arith, value)) (omega (arith, value)) (omega (arith, value))
      (omega (arith, value)) (omega (arith, value))
    ∙ rw (fields-div e)

clear_valid :
    (e : ℕ) → e < 2 ^ 64 → fields (vms_pte_valid_clear e) ≡ record (fields e) { valid = false }
unfolding vms_pte_valid_clear
clear_valid e h =
    let value : bit_and e (complement pte_valid) ≡ e / 2 ^ 0 / 2 * 2 * 2 ^ 0 + e % 2 ^ 0 =
      bit_and-clear 0 e (complement pte_valid) 63 refl refl (omega arith) in
    fields-of_parts (bit_and e (complement pte_valid)) (e / 2 ^ 8 % 2) (e / 2 ^ 2 % 2)
      (e / 2 ^ 1 % 2) 0 (e / 2 ^ 10 % 2 ^ 44) (omega (arith, value)) (omega (arith, value))
      (omega (arith, value)) (omega (arith, value)) (omega (arith, value))
    ∙ rw (fields-div e)

clear_read :
    (e : ℕ) → e < 2 ^ 64 → fields (vms_pte_read_clear e) ≡ record (fields e) { read = false }
unfolding vms_pte_read_clear
clear_read e h =
    let value : bit_and e (complement pte_read) ≡ e / 2 ^ 1 / 2 * 2 * 2 ^ 1 + e % 2 ^ 1 =
      bit_and-clear 1 e (complement pte_read) 62 refl refl (omega arith) in
    fields-of_parts (bit_and e (complement pte_read)) (e / 2 ^ 8 % 2) (e / 2 ^ 2 % 2) 0
      (e / 2 ^ 0 % 2) (e / 2 ^ 10 % 2 ^ 44) (omega (arith, value)) (omega (arith, value))
      (omega (arith, value)) (omega (arith, value)) (omega (arith, value))
    ∙ rw (fields-div e)

clear_write :
    (e : ℕ) → e < 2 ^ 64 → fields (vms_pte_write_clear e) ≡ record (fields e) { write = false }
unfolding vms_pte_write_clear
clear_write e h =
    let value : bit_and e (complement pte_write) ≡ e / 2 ^ 2 / 2 * 2 * 2 ^ 2 + e % 2 ^ 2 =
      bit_and-clear 2 e (complement pte_write) 61 refl refl (omega arith) in
    fields-of_parts (bit_and e (complement pte_write)) (e / 2 ^ 8 % 2) 0 (e / 2 ^ 1 % 2)
      (e / 2 ^ 0 % 2) (e / 2 ^ 10 % 2 ^ 44) (omega (arith, value)) (omega (arith, value))
      (omega (arith, value)) (omega (arith, value)) (omega (arith, value))
    ∙ rw (fields-div e)

clear_custom :
    (e : ℕ) → e < 2 ^ 64 → fields (vms_pte_custom_clear e) ≡ record (fields e) { custom = false }
unfolding vms_pte_custom_clear
clear_custom e h =
    let value : bit_and e (complement pte_custom) ≡ e / 2 ^ 8 / 2 * 2 * 2 ^ 8 + e % 2 ^ 8 =
      bit_and-clear 8 e (complement pte_custom) 55 refl refl (omega arith) in
    fields-of_parts (bit_and e (complement pte_custom)) 0 (e / 2 ^ 2 % 2) (e / 2 ^ 1 % 2)
      (e / 2 ^ 0 % 2) (e / 2 ^ 10 % 2 ^ 44) (omega (arith, value)) (omega (arith, value))
      (omega (arith, value)) (omega (arith, value)) (omega (arith, value))
    ∙ rw (fields-div e)

-- Setting a flag changes that flag alone.
pub fields-set :
    (e : ℕ)
    → (fields (vms_pte_valid_set e) ≡ record (fields e) { valid = true })
      × (fields (vms_pte_read_set e) ≡ record (fields e) { read = true })
      × (fields (vms_pte_write_set e) ≡ record (fields e) { write = true })
      × (fields (vms_pte_custom_set e) ≡ record (fields e) { custom = true })
fields-set e = (set_valid e, set_read e, set_write e, set_custom e)

-- Clearing a flag of a 64-bit entry changes that flag alone.
pub fields-clear :
    (e : ℕ)
    → e < 2 ^ 64
    → (fields (vms_pte_valid_clear e) ≡ record (fields e) { valid = false })
      × (fields (vms_pte_read_clear e) ≡ record (fields e) { read = false })
      × (fields (vms_pte_write_clear e) ≡ record (fields e) { write = false })
      × (fields (vms_pte_custom_clear e) ≡ record (fields e) { custom = false })
fields-clear e h = (clear_valid e h, clear_read e h, clear_write e h, clear_custom e h)

-- Two parts with no common bit are joined by a sum.
disjoint : (h l : ℕ) → l < 2 ^ 44 → bit_or (h * 2 ^ 44) l ≡ h * 2 ^ 44 + l
disjoint h l small =
    let h₁ : h * 2 ^ 44 / 2 ^ 44 ≡ h = omega arith in
    let l₁ : l / 2 ^ 44 ≡ 0 = omega arith in
    let h₂ : h * 2 ^ 44 % 2 ^ 44 ≡ 0 = omega arith in
    let l₂ : l % 2 ^ 44 ≡ l = omega arith in
    join 44 (bit_or (h * 2 ^ 44) l) h l
      (bit_or-shift 44 (h * 2 ^ 44) l ∙ ap₂ bit_or h₁ l₁ ∙ bit_or-zero h)
      (bit_or-low 44 (h * 2 ^ 44) l ∙ ap₂ bit_or h₂ l₂ ∙ zero-bit_or l)

-- The entry after a new page number: the bits above and below are the old ones.
set_ppn-value :
    (e ppn : ℕ)
    → e < 2 ^ 64
    → vms_pte_set_ppn e ppn ≡ (e / 2 ^ 54 * 2 ^ 44 + ppn % 2 ^ 44) * 2 ^ 10 + e % 2 ^ 10
unfolding vms_pte_set_ppn
set_ppn-value e ppn h =
    let p = ppn * 2 ^ 20 % 2 ^ 64 / 2 ^ 10 in
    let kept = bit_and e (complement ppn_mask) in
    let kept_high : kept / 2 ^ 54 ≡ e / 2 ^ 54 =
      bit_and-shift 54 e (complement ppn_mask) ∙ bit_and-mask 10 (e / 2 ^ 54) ∙ omega arith in
    let kept_low : kept % 2 ^ 54 ≡ e % 2 ^ 10 =
      bit_and-low 54 e (complement ppn_mask) ∙ bit_and-mask 10 (e % 2 ^ 54) ∙ omega arith in
    let kept_shift : kept / 2 ^ 10 ≡ e / 2 ^ 54 * 2 ^ 44 = omega arith in
    let below : kept % 2 ^ 10 ≡ e % 2 ^ 10 = omega arith in
    let empty : p % 2 ^ 10 ≡ 0 = omega arith in
    let number : p / 2 ^ 10 ≡ ppn % 2 ^ 44 = omega arith in
    join 10 (bit_or kept p) (e / 2 ^ 54 * 2 ^ 44 + ppn % 2 ^ 44) (e % 2 ^ 10)
      (bit_or-shift 10 kept p
        ∙ ap₂ bit_or kept_shift number
        ∙ disjoint (e / 2 ^ 54) (ppn % 2 ^ 44) (omega arith))
      (bit_or-low 10 kept p ∙ ap₂ bit_or below empty ∙ bit_or-zero (e % 2 ^ 10))

-- On a 64-bit entry, setting the page number keeps the four flags, and the page number is then the
-- one given, up to 44 bits.
pub fields-set_ppn :
    (e ppn : ℕ)
    → e < 2 ^ 64
    → fields (vms_pte_set_ppn e ppn) ≡ record (fields e) { ppn = ppn % 2 ^ 44 }
fields-set_ppn e ppn h =
    let value = set_ppn-value e ppn h in
    fields-of_parts (vms_pte_set_ppn e ppn) (e / 2 ^ 8 % 2) (e / 2 ^ 2 % 2) (e / 2 ^ 1 % 2)
      (e / 2 ^ 0 % 2) (ppn % 2 ^ 44) (omega (arith, value)) (omega (arith, value))
      (omega (arith, value)) (omega (arith, value)) (omega (arith, value))
    ∙ rw (fields-div e)
