-- ===== src/Pht/Parse.antt =====
-- pht/src/pht-tester.c, `parse_uint32_t`: which texts it takes, and the number that it returns.
use yep.Common.{
  ℕ, zero, suc, ◌+◌, ◌-◌, ◌*◌, ◌^◌, ◌≤◌, ◌<◌, ◌≡◌, Bool, true, false, ◌&&◌, none, some, List, [],
  ◌∷◌, length, arith, ◌==◌, ltb, leb, if◌then◌else◌, Bool-cases, inl, inr,
}
use native.Mathlib.Nat.{pow-suc}
use native.Mathlib.Numerals.{add-one}
use native.Mathlib.Decide.{dec_lt}
use yep.Pht.Tester.{parse_digit, parse_from, parse_uint32_t}

abbrev pub is_digit : ℕ → Bool
is_digit c = leb 0x30 c && leb c 0x39

unfoldable pub all_digits : List ℕ → Bool
all_digits [] = true
all_digits (c ∷ s) = if is_digit c then all_digits s else false

-- The decimal number that continues `n`.
unfoldable pub decimal : ℕ → List ℕ → ℕ
decimal n [] = n
decimal n (c ∷ s) = decimal (n * 10 + (c - 0x30)) s

le-decimal : (n : ℕ) (s : List ℕ) → n ≤ decimal n s
unfolding decimal
le-decimal n [] = omega arith
le-decimal n (c ∷ s) = omega (arith, le-decimal (n * 10 + (c - 0x30)) s)

pow_bound : (i : ℕ) → i ≤ 8 → 10 ^ i ≤ 10 ^ 8
pow_bound zero h = omega arith
pow_bound (suc zero) h = omega arith
pow_bound (suc (suc zero)) h = omega arith
pow_bound (suc (suc (suc zero))) h = omega arith
pow_bound (suc (suc (suc (suc zero)))) h = omega arith
pow_bound (suc (suc (suc (suc (suc zero))))) h = omega arith
pow_bound (suc (suc (suc (suc (suc (suc zero)))))) h = omega arith
pow_bound (suc (suc (suc (suc (suc (suc (suc zero))))))) h = omega arith
pow_bound (suc (suc (suc (suc (suc (suc (suc (suc zero)))))))) h = omega arith
pow_bound (suc (suc (suc (suc (suc (suc (suc (suc (suc i))))))))) h = absurd (omega arith)

-- One round takes a digit while the number fits.
parse_digit_lem :
    (i n c : ℕ)
    → i ≤ 10
    → n < 10 ^ i
    → parse_digit i n c ≡ (
        if is_digit c && ltb i 10 && ltb (n * 10 + (c - 0x30)) (2 ^ 32)
        then some (n * 10 + (c - 0x30))
        else none)
unfolding parse_digit
parse_digit_lem i n c h k = elim (dec_lt i 9) [
  | yes small ↦ ground (arith, pow_bound i)
  | no big ↦ elim (Bool-cases (i == 9)) [ inl e ↦ ground arith | inr e ↦ ground arith ]
]

parse_from_lem :
    (i n : ℕ) (s : List ℕ)
    → i ≤ 10
    → n < 10 ^ i
    → n < 2 ^ 32
    → parse_from i n s ≡ (
        if all_digits s && leb (i + length s) 10 && ltb (decimal n s) (2 ^ 32)
        then some (decimal n s)
        else none)
unfolding parse_from all_digits decimal
parse_from_lem i n [] h k l = ground arith
parse_from_lem i n (c ∷ s) h k l =
    let m = n * 10 + (c - 0x30) in
    elim (Bool-cases (is_digit c && ltb i 10 && ltb m (2 ^ 32))) [
      | inl e ↦ ground (
        arith,
        parse_digit_lem i n c h k,
        parse_from_lem (i + 1) m s (ground arith) (power (ground arith)) (ground arith),
      )
      | inr e ↦ ground (arith, parse_digit_lem i n c h k, le-decimal m s)
    ]
  where
    power : c - 0x30 < 10 → n * 10 + (c - 0x30) < 10 ^ (i + 1)
    power d = rw (add-one i) (omega (arith, pow-suc 10 i))

-- The parser returns a number exactly on a text of at most ten decimal digits whose number is below
-- 2 ^ 32, and then that number; on every other text the program exits.
pub parse_uint32_t_lem :
    (s : List ℕ)
    → parse_uint32_t s ≡ (
        if all_digits s && leb (length s) 10 && ltb (decimal 0 s) (2 ^ 32)
        then some (decimal 0 s)
        else none)
unfolding parse_uint32_t
parse_uint32_t_lem s =
    ground (arith, parse_from_lem 0 0 s (omega arith) (omega arith) (omega arith))
