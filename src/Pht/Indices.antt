-- ===== src/Pht/Indices.antt =====
-- pht/src/pht-tester.c, `get_global_index`: which strings of the data are used.
use native.Mathlib.Nat.{mul-le-mul_right, div-add-mod, div-lt_iff_lt-mul, mod-lt}
use yep.Common.{
  ℕ, ◌+◌, ◌*◌, ◌/◌, ◌%◌, ◌^◌, ◌≤◌, ◌<◌, ◌≡◌, ◌↔◌, sym, ap, ◌∙◌, arith, ltb, ltb→lt, ltb-false→le,
  Bool-cases, inl, inr,
}
use yep.Pht.Main.{Arguments, get_global_index, allocated_strings}

module _ (arguments : Arguments) where
  -- Each index that the loops of `main` use is that of an allocated string.
  abbrev pub Inside : Type 0
  Inside =
      (i j : ℕ)
      → i < arguments.threads
      → j < arguments.size
      → get_global_index arguments i j < allocated_strings arguments

  inside : arguments.threads * arguments.size < 2 ^ 32 → Inside
  unfolding get_global_index allocated_strings
  inside fits i j hi hj =
      let above : (i + 1) * arguments.size ≤ arguments.threads * arguments.size =
        mul-le-mul_right arguments.size (omega arith) in
      omega (arith, fits, above, hj)

  fits : Inside → arguments.threads * arguments.size < 2 ^ 32
  unfolding get_global_index allocated_strings
  fits h = elim (Bool-cases (ltb (arguments.threads * arguments.size) (2 ^ 32))) [
    | inl e ↦ ltb→lt (arguments.threads * arguments.size) (2 ^ 32) e
    | inr e ↦
        let large = ltb-false→le (arguments.threads * arguments.size) (2 ^ 32) e in
        let positive : 0 < arguments.size = size_positive large in
        let q = arguments.threads * arguments.size % 2 ^ 32 in
        let i_small : q / arguments.size < arguments.threads =
          (div-lt_iff_lt-mul positive).1 (omega (arith, large)) in
        let j_small : q % arguments.size < arguments.size = mod-lt q positive in
        let whole = div-add-mod q arguments.size in
        absurd (omega (arith, h (q / arguments.size) (q % arguments.size) i_small j_small, whole))
  ]
    where
      size_positive : 2 ^ 32 ≤ arguments.threads * arguments.size → 0 < arguments.size
      size_positive large = elim (Bool-cases (ltb 0 arguments.size)) [
        | inl e ↦ ltb→lt 0 arguments.size e
        | inr e ↦
            let none : arguments.size ≡ 0 = omega (arith, ltb-false→le 0 arguments.size e) in
            absurd (omega (arith, large, ap (λ n. arguments.threads * n) none))
      ]

  distinct :
      (i j i' j' : ℕ)
      → i < i'
      → j < arguments.size
      → i * arguments.size + j ≡ i' * arguments.size + j'
      → ⊥
  distinct i j i' j' less hj e =
      let above : (i + 1) * arguments.size ≤ i' * arguments.size =
        mul-le-mul_right arguments.size (omega arith) in
      omega (arith, above, hj, e)

  no_wrap :
      (i j : ℕ)
      → arguments.threads * arguments.size < 2 ^ 32
      → i < arguments.threads
      → j < arguments.size
      → get_global_index arguments i j ≡ i * arguments.size + j
  unfolding get_global_index
  no_wrap i j fits hi hj =
      let above : (i + 1) * arguments.size ≤ arguments.threads * arguments.size =
        mul-le-mul_right arguments.size (omega arith) in
      omega (arith, fits, above, hj)

  -- Every index that `main` uses is that of a string for which `calloc` has made room, exactly if the
  -- number of strings is less than 2 ^ 32.
  pub get_global_index-Inside : Inside ↔ (arguments.threads * arguments.size < 2 ^ 32)
  get_global_index-Inside = (fits, inside)

  -- Then two threads, or two rounds of a thread, have different indices.
  pub get_global_index_injective :
      (i j i' j' : ℕ)
      → arguments.threads * arguments.size < 2 ^ 32
      → i < arguments.threads
      → j < arguments.size
      → i' < arguments.threads
      → j' < arguments.size
      → get_global_index arguments i j ≡ get_global_index arguments i' j'
      → (i ≡ i') × (j ≡ j')
  get_global_index_injective i j i' j' small hi hj hi' hj' e =
      let plain = sym (no_wrap i j small hi hj) ∙ e ∙ no_wrap i' j' small hi' hj' in
      elim (Bool-cases (ltb i i')) [
        | inl l ↦ absurd (distinct i j i' j' (ltb→lt i i' l) hj plain)
        | inr l ↦ elim (Bool-cases (ltb i' i)) [
          | inl k ↦ absurd (distinct i' j' i j (ltb→lt i' i k) hj' (sym plain))
          | inr k ↦
              let same : i ≡ i' = omega (arith, ltb-false→le i i' l, ltb-false→le i' i k) in
              (same, omega (arith, plain, ap (λ n. n * arguments.size) same))
        ]
      ]
