-- ===== src/Vms/Flags.antt =====
-- vms/src/vms.c, `set_all_bits`: the flags of one entry are joined to those of another.
use yep.Common.{
  ℕ, ◌+◌, ◌/◌, ◌%◌, ◌^◌, ◌≤◌, ◌<◌, ◌≡◌, refl, sym, ap, ◌∙◌, ◌⊎◌, Bool, true, false, ◌||◌, arith,
  if◌then◌else◌, Bool-cases, inl, inr,
}
use yep.Vms.Pte.{
  vms_pte_valid, vms_pte_read, vms_pte_write, vms_pte_custom, vms_pte_valid_set, vms_pte_read_set,
  vms_pte_write_set, vms_pte_custom_set,
}
use yep.Vms.Machine.{Machine, M, done, then_run, load_bytes, store_bytes}
use yep.Vms.Entry.{Fields, fields, fields-div, fields-of_parts, fields-set}
use yep.Vms.Access.{store_bytes-outside, load_bytes-outside, load_bytes-store_bytes, low_bytes}
use yep.Vms.Fork.{copy_flag, set_all_bits, set_bits_except_write}

pub low_bytes-fields : (e : ℕ) → fields (low_bytes 8 e) ≡ fields e
unfolding low_bytes
low_bytes-fields e =
    fields-of_parts (low_bytes 8 e) (e / 2 ^ 8 % 2) (e / 2 ^ 2 % 2) (e / 2 ^ 1 % 2) (e / 2 ^ 0 % 2)
      (e / 2 ^ 10 % 2 ^ 44) (omega arith) (omega arith) (omega arith) (omega arith) (omega arith)
    ∙ sym (fields-div e)

-- The machine after a store into the entry at `b`, if the test of the entry at `a` holds.
copied : (ℕ → Bool) → (ℕ → ℕ) → ℕ → ℕ → Machine → Machine
copied test sets a b m =
    if test (load_bytes 8 a m.bytes)
    then record m { bytes = store_bytes 8 b (sets (load_bytes 8 b m.bytes)) m.bytes }
    else m

-- The entry at `b` has the fields `f` after a change of that entry alone.
record Only (a b : ℕ) (m m' : Machine) (f : Fields) : Type 0 where
  kept : load_bytes 8 a m'.bytes ≡ load_bytes 8 a m.bytes
  changed : fields (load_bytes 8 b m'.bytes) ≡ f
  others : (j : ℕ) → (j < b) ⊎ (b + 8 ≤ j) → m'.bytes j ≡ m.bytes j

module _ (a b : ℕ) (apart : (a + 8 ≤ b) ⊎ (b + 8 ≤ a)) where
  copy_flag-copied :
      (test : ℕ → Bool) (sets : ℕ → ℕ) (m : Machine)
      → copy_flag test sets a b m ≡ done tt (copied test sets a b m)
  unfolding copied
  copy_flag-copied test sets m = elim (Bool-cases (test (load_bytes 8 a m.bytes))) [
    | inl e ↦ ground (arith, e)
    | inr e ↦ ground (arith, e)
  ]

  copied-Only :
      (test : ℕ → Bool) (sets : ℕ → ℕ) (update : Bool → Fields → Fields)
      → ((f : Fields) → update false f ≡ f)
      → ((e : ℕ) → fields (sets e) ≡ update true (fields e))
      → (m : Machine)
      → Only a b m
          (copied test sets a b m)
          (update (test (load_bytes 8 a m.bytes)) (fields (load_bytes 8 b m.bytes)))
  unfolding copied
  copied-Only test sets update stays law m = go (test (load_bytes 8 a m.bytes))
    where
      v : ℕ
      v = sets (load_bytes 8 b m.bytes)

      go :
          (t : Bool)
          → Only a b m
              (if t then record m { bytes = store_bytes 8 b v m.bytes } else m)
              (update t (fields (load_bytes 8 b m.bytes)))
      go false = record {
        kept = refl;
        changed = sym (stays (fields (load_bytes 8 b m.bytes)));
        others = λ j h. refl;
      }
      go true = record {
        kept = load_bytes-outside 8 a 8 b v m.bytes apart;
        changed =
            ap fields (load_bytes-store_bytes 8 b v m.bytes)
            ∙ low_bytes-fields v
            ∙ law (load_bytes 8 b m.bytes);
        others = λ j h. store_bytes-outside 8 b v m.bytes j h;
      }

-- The fields of an entry with those of another joined to it.
abbrev pub joined : Fields → Fields → Fields
joined f g = record {
  custom = g.custom || f.custom;
  write = g.write || f.write;
  read = g.read || f.read;
  valid = g.valid || f.valid;
  ppn = f.ppn;
}

-- For two entries that do not overlap, `set_all_bits` and `set_bits_except_write` return in the same
-- state: the second entry has each flag that it or the first one had, the write flag with them, and
-- the page number that it had, and no byte outside it has changed.
pub set_all_bits-joined :
    (a b : ℕ) (m : Machine)
    → (a + 8 ≤ b) ⊎ (b + 8 ≤ a)
    → (m' : Machine) × (set_all_bits a b m ≡ done tt m')
      × (set_bits_except_write a b m ≡ done tt m')
      × (fields (load_bytes 8 b m'.bytes)
          ≡ joined (fields (load_bytes 8 b m.bytes)) (fields (load_bytes 8 a m.bytes)))
      × ((j : ℕ) → (j < b) ⊎ (b + 8 ≤ j) → m'.bytes j ≡ m.bytes j)
unfolding set_all_bits set_bits_except_write
set_all_bits-joined a b m apart =
    let m₁ = copied vms_pte_valid vms_pte_valid_set a b m in
    let m₂ = copied vms_pte_read vms_pte_read_set a b m₁ in
    let m₃ = copied vms_pte_write vms_pte_write_set a b m₂ in
    let m₄ = copied vms_pte_custom vms_pte_custom_set a b m₃ in
    let o₁ =
      copied-Only a b apart vms_pte_valid vms_pte_valid_set
        (λ t f. record f { valid = t || f.valid }) (λ f. refl) (λ e. (fields-set e).0) m in
    let o₂ =
      copied-Only a b apart vms_pte_read vms_pte_read_set (λ t f. record f { read = t || f.read })
        (λ f. refl) (λ e. (fields-set e).1) m₁ in
    let o₃ =
      copied-Only a b apart vms_pte_write vms_pte_write_set
        (λ t f. record f { write = t || f.write }) (λ f. refl) (λ e. (fields-set e).2) m₂ in
    let o₄ =
      copied-Only a b apart vms_pte_custom vms_pte_custom_set
        (λ t f. record f { custom = t || f.custom }) (λ f. refl) (λ e. (fields-set e).3) m₃ in
    let all_run =
      run m₁ m₂ m₃ m₄ (copy_flag-copied a b apart _ _ m) (copy_flag-copied a b apart _ _ m₁)
        (copy_flag-copied a b apart _ _ m₂) (copy_flag-copied a b apart _ _ m₃) in
    (
      m₄,
      all_run,
      all_run,
      simp (o₄.changed, o₃.changed, o₂.changed, o₁.changed, o₃.kept, o₂.kept, o₁.kept)
          (unfold fields in refl),
      λ j h. o₄.others j h ∙ o₃.others j h ∙ o₂.others j h ∙ o₁.others j h,
    )
  where
    run :
        (m₁ m₂ m₃ m₄ : Machine)
        → copy_flag vms_pte_valid vms_pte_valid_set a b m ≡ done tt m₁
        → copy_flag vms_pte_read vms_pte_read_set a b m₁ ≡ done tt m₂
        → copy_flag vms_pte_write vms_pte_write_set a b m₂ ≡ done tt m₃
        → copy_flag vms_pte_custom vms_pte_custom_set a b m₃ ≡ done tt m₄
        → set_all_bits a b m ≡ done tt m₄
    run m₁ m₂ m₃ m₄ h₁ h₂ h₃ h₄ =
        let third : Unit {0} → M (Unit {0}) =
          λ _ n. copy_flag vms_pte_custom vms_pte_custom_set a b n in
        let second : Unit {0} → M (Unit {0}) =
          λ _ n. then_run (copy_flag vms_pte_write vms_pte_write_set a b n) third in
        let first : Unit {0} → M (Unit {0}) =
          λ _ n. then_run (copy_flag vms_pte_read vms_pte_read_set a b n) second in
        ap (λ x. then_run x first) h₁
        ∙ ap (λ x. then_run x second) h₂
        ∙ ap (λ x. then_run x third) h₃
        ∙ h₄
