-- ===== src/Common/Bits.antt =====
-- The bitwise operations of C on unsigned words, at variables: one binary digit at a time, then
-- shifts, low parts and masks.
use Prim.Native.Nat.{
  ℕ, zero, suc, ◌+◌, ◌-◌, ◌*◌, ◌/◌, ◌%◌, ◌^◌, ◌≤◌, ◌<◌, min, max, digits, bit_and, bit_or,
  bit_and-bitwise, bit_or-bitwise,
}
use mathlib.Core.Path.{◌≡◌, refl, sym, ◌∙◌, ap, ap₂}
use native.Mathlib.Nat.{
  mod-lt, mod-eq_of_lt, pow-succ', one-le-pow, div-add-mod, div-div-eq-div-mul,
}
use native.Mathlib.Omega.{arith}

-- Fuel beyond the first operand makes no difference.
module _ (alone : ℕ → ℕ) (digit : ℕ → ℕ → ℕ) where
  enough : (x y k l : ℕ) → x ≤ k → x ≤ l → digits alone digit k x y ≡ digits alone digit l x y
  enough zero y zero zero h i = refl
  enough zero y zero (suc l) h i = refl
  enough zero y (suc k) zero h i = refl
  enough zero y (suc k) (suc l) h i = refl
  enough (suc x) y zero l h i = absurd (omega arith)
  enough (suc x) y (suc k) zero h i = absurd (omega arith)
  enough (suc x) y (suc k) (suc l) h i =
      ap (λ t. t * 2 + digit (suc x % 2) (y % 2))
        (enough (suc x / 2) (y / 2) k l (omega arith) (omega arith))

pub or_digit : (x y : ℕ) → bit_or x y ≡ bit_or (x / 2) (y / 2) * 2 + max (x % 2) (y % 2)
or_digit zero y = omega (arith, bit_or-bitwise 0 y, bit_or-bitwise 0 (y / 2))
or_digit (suc x) y = omega (
  arith,
  bit_or-bitwise (suc x) y,
  bit_or-bitwise (suc x / 2) (y / 2),
  enough (λ t. t) max (suc x / 2) (y / 2) x (suc x / 2) (omega arith) (omega arith),
)

pub and_digit : (x y : ℕ) → bit_and x y ≡ bit_and (x / 2) (y / 2) * 2 + min (x % 2) (y % 2)
and_digit zero y = omega (arith, bit_and-bitwise 0 y, bit_and-bitwise 0 (y / 2))
and_digit (suc x) y = omega (
  arith,
  bit_and-bitwise (suc x) y,
  bit_and-bitwise (suc x / 2) (y / 2),
  enough (λ t. 0) min (suc x / 2) (y / 2) x (suc x / 2) (omega arith) (omega arith),
)

pub zero-bit_or : (y : ℕ) → bit_or 0 y ≡ y
zero-bit_or y = bit_or-bitwise 0 y

pub zero-bit_and : (y : ℕ) → bit_and 0 y ≡ 0
zero-bit_and y = bit_and-bitwise 0 y

unit : (x : ℕ) → x / 1 ≡ x
unit x = omega arith

nothing : (x : ℕ) → x % 1 ≡ 0
nothing x = omega arith

-- A shift to the right by one more place, and the low part one place longer.
shift_suc : (k x : ℕ) → x / 2 ^ suc k ≡ x / 2 / 2 ^ k
shift_suc k x = rw (pow-succ' 2 k) (sym (div-div-eq-div-mul x 2 (2 ^ k)))

low_suc : (k x : ℕ) → x % 2 ^ suc k ≡ x / 2 % 2 ^ k * 2 + x % 2
low_suc k x = omega (
  arith,
  div-add-mod x (2 ^ suc k),
  div-add-mod (x / 2) (2 ^ k),
  ap (λ (t : ℕ). t * (x / 2 ^ suc k)) (pow-succ' 2 k),
  ap (λ (t : ℕ). 2 ^ k * t) (shift_suc k x),
)

or_pair : (h b g c : ℕ) → b < 2 → c < 2 → bit_or (h * 2 + b) (g * 2 + c) ≡ bit_or h g * 2 + max b c
or_pair h b g c lb lc =
    let eh : (h * 2 + b) / 2 ≡ h = omega arith in
    let eg : (g * 2 + c) / 2 ≡ g = omega arith in
    let eb : (h * 2 + b) % 2 ≡ b = omega arith in
    let ec : (g * 2 + c) % 2 ≡ c = omega arith in
    or_digit (h * 2 + b) (g * 2 + c) ∙ ap₂ (λ p q. p * 2 + q) (ap₂ bit_or eh eg) (ap₂ max eb ec)

and_pair :
    (h b g c : ℕ) → b < 2 → c < 2 → bit_and (h * 2 + b) (g * 2 + c) ≡ bit_and h g * 2 + min b c
and_pair h b g c lb lc =
    let eh : (h * 2 + b) / 2 ≡ h = omega arith in
    let eg : (g * 2 + c) / 2 ≡ g = omega arith in
    let eb : (h * 2 + b) % 2 ≡ b = omega arith in
    let ec : (g * 2 + c) % 2 ≡ c = omega arith in
    and_digit (h * 2 + b) (g * 2 + c) ∙ ap₂ (λ p q. p * 2 + q) (ap₂ bit_and eh eg) (ap₂ min eb ec)

pub bit_or-shift : (k x y : ℕ) → bit_or x y / 2 ^ k ≡ bit_or (x / 2 ^ k) (y / 2 ^ k)
bit_or-shift zero x y =
    unit (bit_or x y)
    ∙ ap (λ t. bit_or t y) (sym (unit x))
    ∙ ap (λ t. bit_or (x / 1) t) (sym (unit y))
bit_or-shift (suc k) x y =
    rw (shift_suc k (bit_or x y), shift_suc k x, shift_suc k y)
      (ap (λ t. t / 2 ^ k) (omega (arith, or_digit x y)) ∙ bit_or-shift k (x / 2) (y / 2))

pub bit_and-shift : (k x y : ℕ) → bit_and x y / 2 ^ k ≡ bit_and (x / 2 ^ k) (y / 2 ^ k)
bit_and-shift zero x y =
    unit (bit_and x y)
    ∙ ap (λ t. bit_and t y) (sym (unit x))
    ∙ ap (λ t. bit_and (x / 1) t) (sym (unit y))
bit_and-shift (suc k) x y =
    rw (shift_suc k (bit_and x y), shift_suc k x, shift_suc k y)
      (ap (λ t. t / 2 ^ k) (omega (arith, and_digit x y)) ∙ bit_and-shift k (x / 2) (y / 2))

pub bit_or-low : (k x y : ℕ) → bit_or x y % 2 ^ k ≡ bit_or (x % 2 ^ k) (y % 2 ^ k)
bit_or-low zero x y = rw (nothing x, nothing y) (nothing (bit_or x y))
bit_or-low (suc k) x y =
    low_suc k (bit_or x y)
    ∙ ap₂ (λ a b. a * 2 + b)
        (ap (λ t. t % 2 ^ k) (omega (arith, or_digit x y)) ∙ bit_or-low k (x / 2) (y / 2))
        (omega (arith, or_digit x y))
    ∙ sym (or_pair (x / 2 % 2 ^ k) (x % 2) (y / 2 % 2 ^ k) (y % 2) (omega arith) (omega arith))
    ∙ ap₂ bit_or (sym (low_suc k x)) (sym (low_suc k y))

pub bit_and-low : (k x y : ℕ) → bit_and x y % 2 ^ k ≡ bit_and (x % 2 ^ k) (y % 2 ^ k)
bit_and-low zero x y = rw (nothing x, nothing y) (nothing (bit_and x y))
bit_and-low (suc k) x y =
    low_suc k (bit_and x y)
    ∙ ap₂ (λ a b. a * 2 + b)
        (ap (λ t. t % 2 ^ k) (omega (arith, and_digit x y)) ∙ bit_and-low k (x / 2) (y / 2))
        (omega (arith, and_digit x y))
    ∙ sym (and_pair (x / 2 % 2 ^ k) (x % 2) (y / 2 % 2 ^ k) (y % 2) (omega arith) (omega arith))
    ∙ ap₂ bit_and (sym (low_suc k x)) (sym (low_suc k y))

bit_and-zero_below : (n x : ℕ) → x ≤ n → bit_and x 0 ≡ 0
bit_and-zero_below n zero h = refl
bit_and-zero_below zero (suc x) h = absurd (omega arith)
bit_and-zero_below (suc n) (suc x) h =
    omega (arith, and_digit (suc x) 0, bit_and-zero_below n (suc x / 2) (omega arith))

pub bit_and-zero : (x : ℕ) → bit_and x 0 ≡ 0
bit_and-zero x = bit_and-zero_below x x (omega arith)

bit_or-zero_below : (n x : ℕ) → x ≤ n → bit_or x 0 ≡ x
bit_or-zero_below n zero h = refl
bit_or-zero_below zero (suc x) h = absurd (omega arith)
bit_or-zero_below (suc n) (suc x) h =
    omega (arith, or_digit (suc x) 0, bit_or-zero_below n (suc x / 2) (omega arith))

pub bit_or-zero : (x : ℕ) → bit_or x 0 ≡ x
bit_or-zero x = bit_or-zero_below x x (omega arith)

-- A mask of the `k` low bits.
pub bit_and-mask : (k x : ℕ) → bit_and x (2 ^ k - 1) ≡ x % 2 ^ k
bit_and-mask zero x = bit_and-zero x ∙ sym (nothing x)
bit_and-mask (suc k) x =
    let half : (2 ^ suc k - 1) / 2 ≡ 2 ^ k - 1 =
      omega (arith, pow-succ' 2 k, one-le-pow k 2 (omega arith)) in
    let odd : (2 ^ suc k - 1) % 2 ≡ 1 =
      omega (arith, pow-succ' 2 k, one-le-pow k 2 (omega arith)) in
    and_digit x (2 ^ suc k - 1)
    ∙ ap₂ (λ p q. p * 2 + q) (ap (bit_and (x / 2)) half ∙ bit_and-mask k (x / 2)) (omega arith)
    ∙ sym (low_suc k x)

split : (k x : ℕ) → x ≡ x / 2 ^ k * 2 ^ k + x % 2 ^ k
split k x = omega (arith, div-add-mod x (2 ^ k))

-- A word is known from its part above a place and its part below.
pub join : (k x h l : ℕ) → x / 2 ^ k ≡ h → x % 2 ^ k ≡ l → x ≡ h * 2 ^ k + l
join k x h l high low = split k x ∙ ap₂ (λ a b. a * 2 ^ k + b) high low

-- The test, the setting and the clearing of bit `k`, where `m` is the mask.
module _ (k x m : ℕ) where
  pub bit_and-flag : m / 2 ^ k ≡ 1 → m % 2 ^ k ≡ 0 → bit_and x m ≡ x / 2 ^ k % 2 * 2 ^ k + 0
  bit_and-flag high low =
      join k (bit_and x m) _ 0
        (bit_and-shift k x m ∙ ap (bit_and (x / 2 ^ k)) high ∙ bit_and-mask 1 (x / 2 ^ k))
        (bit_and-low k x m ∙ ap (bit_and (x % 2 ^ k)) low ∙ bit_and-zero (x % 2 ^ k))

  pub bit_or-flag :
      m / 2 ^ k ≡ 1 → m % 2 ^ k ≡ 0 → bit_or x m ≡ (x / 2 ^ k / 2 * 2 + 1) * 2 ^ k + x % 2 ^ k
  bit_or-flag high low =
      join k (bit_or x m) _ _
        (bit_or-shift k x m
          ∙ ap (bit_or (x / 2 ^ k)) high
          ∙ or_digit (x / 2 ^ k) 1
          ∙ ap₂ (λ a b. a * 2 + b) (bit_or-zero (x / 2 ^ k / 2)) (omega arith))
        (bit_or-low k x m ∙ ap (bit_or (x % 2 ^ k)) low ∙ bit_or-zero (x % 2 ^ k))

  pub bit_and-clear :
      (n : ℕ)
      → m / 2 ^ k ≡ (2 ^ n - 1) * 2
      → m % 2 ^ k ≡ 2 ^ k - 1
      → x / 2 ^ k / 2 % 2 ^ n ≡ x / 2 ^ k / 2
      → bit_and x m ≡ x / 2 ^ k / 2 * 2 * 2 ^ k + x % 2 ^ k
  bit_and-clear n high low fits =
      let half : (2 ^ n - 1) * 2 / 2 ≡ 2 ^ n - 1 = omega arith in
      let even : min (x / 2 ^ k % 2) ((2 ^ n - 1) * 2 % 2) ≡ 0 = omega arith in
      let tidy : x / 2 ^ k / 2 * 2 + 0 ≡ x / 2 ^ k / 2 * 2 = omega arith in
      join k (bit_and x m) _ _
        (bit_and-shift k x m
          ∙ ap (bit_and (x / 2 ^ k)) high
          ∙ and_digit (x / 2 ^ k) ((2 ^ n - 1) * 2)
          ∙ ap₂ (λ a b. a * 2 + b)
              (ap (bit_and (x / 2 ^ k / 2)) half ∙ bit_and-mask n (x / 2 ^ k / 2) ∙ fits) even
          ∙ tidy)
        (bit_and-low k x m ∙ ap (bit_and (x % 2 ^ k)) low ∙ bit_and-mask k (x % 2 ^ k) ∙ again)
    where
      again : x % 2 ^ k % 2 ^ k ≡ x % 2 ^ k
      again = mod-eq_of_lt (mod-lt x (one-le-pow k 2 (omega arith)))
