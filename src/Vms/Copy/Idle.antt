-- ===== src/Vms/Copy/Idle.antt =====
-- vms/src/vms.c, `set_all_bits`: flags that an entry has already.
use yep.Common.{
  ℕ, ◌+◌, ◌*◌, ◌/◌, ◌%◌, ◌^◌, ◌<◌, ◌≡◌, refl, sym, ap, ◌∙◌, Bool, true, arith, Bool-cases, inl, inr,
}
use Prim.Native.Nat.{bit_or}
use yep.Common.Bits.{bit_or-flag, join}
use yep.Vms.Pte.{
  pte_valid, pte_read, pte_write, pte_custom, vms_pte_valid, vms_pte_read, vms_pte_write,
  vms_pte_custom, vms_pte_valid_set, vms_pte_read_set, vms_pte_write_set, vms_pte_custom_set,
}
use yep.Vms.Machine.{Machine, M, done, then_run, load_bytes, store_bytes}
use yep.Vms.Entry.{bit, flag_valid, flag_read, flag_write, flag_custom}
use yep.Vms.Fork.{copy_flag, set_all_bits}
use yep.Vms.Copy.Memory.{store_bytes-load_bytes}

-- Two entries with the same flags.
pub record SameFlags (e e' : ℕ) : Type 0 where
  pub valid : vms_pte_valid e' ≡ vms_pte_valid e
  pub read : vms_pte_read e' ≡ vms_pte_read e
  pub write : vms_pte_write e' ≡ vms_pte_write e
  pub custom : vms_pte_custom e' ≡ vms_pte_custom e

or_again : (k e mask : ℕ) → mask / 2 ^ k ≡ 1 → mask % 2 ^ k ≡ 0 → bit k e ≡ true → bit_or e mask ≡ e
or_again k e mask high low h =
    let value = bit_or-flag k e mask high low in
    let odd : e / 2 ^ k % 2 ≡ 1 = ground (arith, h) in
    let half : e / 2 ^ k ≡ e / 2 ^ k / 2 * 2 + 1 = omega (arith, odd) in
    value ∙ sym (join k e (e / 2 ^ k / 2 * 2 + 1) (e % 2 ^ k) half refl)

set_valid_again : (e : ℕ) → vms_pte_valid e ≡ true → vms_pte_valid_set e ≡ e
unfolding vms_pte_valid_set
set_valid_again e h = or_again 0 e pte_valid refl refl (sym (flag_valid e) ∙ h)

set_read_again : (e : ℕ) → vms_pte_read e ≡ true → vms_pte_read_set e ≡ e
unfolding vms_pte_read_set
set_read_again e h = or_again 1 e pte_read refl refl (sym (flag_read e) ∙ h)

set_write_again : (e : ℕ) → vms_pte_write e ≡ true → vms_pte_write_set e ≡ e
unfolding vms_pte_write_set
set_write_again e h = or_again 2 e pte_write refl refl (sym (flag_write e) ∙ h)

set_custom_again : (e : ℕ) → vms_pte_custom e ≡ true → vms_pte_custom_set e ≡ e
unfolding vms_pte_custom_set
set_custom_again e h = or_again 8 e pte_custom refl refl (sym (flag_custom e) ∙ h)

module _ (a b : ℕ) (m : Machine) (small : (j : ℕ) → m.bytes j < 256) where
  copy_flag_idle :
      (test : ℕ → Bool) (sets : ℕ → ℕ)
      → ((e : ℕ) → test e ≡ true → sets e ≡ e)
      → test (load_bytes 8 b m.bytes) ≡ test (load_bytes 8 a m.bytes)
      → copy_flag test sets a b m ≡ done tt m
  copy_flag_idle test sets again same = elim (Bool-cases (test (load_bytes 8 a m.bytes))) [
    | inr e ↦ ground (arith, e)
    | inl e ↦
        let v : sets (load_bytes 8 b m.bytes) ≡ load_bytes 8 b m.bytes =
          again (load_bytes 8 b m.bytes) (same ∙ e) in
        let back : store_bytes 8 b (sets (load_bytes 8 b m.bytes)) m.bytes ≡ m.bytes =
          ap (λ x. store_bytes 8 b x m.bytes) v ∙ store_bytes-load_bytes 8 b m.bytes small in
        ground (arith, e) ∙ ap (λ g. done tt (record m { bytes = g })) back
  ]

  -- Where both entries have the same flags, nothing changes.
  pub set_all_bits_idle :
      SameFlags (load_bytes 8 a m.bytes) (load_bytes 8 b m.bytes) → set_all_bits a b m ≡ done tt m
  unfolding set_all_bits
  set_all_bits_idle s =
      let third : Unit {0} → M (Unit {0}) =
        λ _ n. copy_flag vms_pte_custom vms_pte_custom_set a b n in
      let second : Unit {0} → M (Unit {0}) =
        λ _ n. then_run (copy_flag vms_pte_write vms_pte_write_set a b n) third in
      let first : Unit {0} → M (Unit {0}) =
        λ _ n. then_run (copy_flag vms_pte_read vms_pte_read_set a b n) second in
      ap (λ x. then_run x first)
        (copy_flag_idle vms_pte_valid vms_pte_valid_set set_valid_again s.valid)
      ∙ ap (λ x. then_run x second)
          (copy_flag_idle vms_pte_read vms_pte_read_set set_read_again s.read)
      ∙ ap (λ x. then_run x third)
          (copy_flag_idle vms_pte_write vms_pte_write_set set_write_again s.write)
      ∙ copy_flag_idle vms_pte_custom vms_pte_custom_set set_custom_again s.custom
