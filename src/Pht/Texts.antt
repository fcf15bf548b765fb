-- ===== src/Pht/Texts.antt =====
-- pht/src/pht-tester.c: the bytes of one string that `main` generates.
use yep.Common.{
  ℕ, zero, suc, ◌+◌, ◌*◌, ◌%◌, ◌≤◌, ◌<◌, ◌≡◌, ◌≢◌, refl, sym, subst, ap, ◌∙◌, ◌⊎◌, [], ◌∷◌, ltb,
  length, arith, ltb→lt, ltb-false→le, Bool-cases, inl, inr,
}
use yep.Pht.Hash.{Key}
use yep.Pht.Main.{letter, fill_letters, write_string, text, set_byte}

-- 'A' to 'Z' or 'a' to 'z'
abbrev pub IsLetter : ℕ → Type 0
IsLetter c = ((0x41 ≤ c) × (c ≤ 0x5A)) ⊎ ((0x61 ≤ c) × (c ≤ 0x7A))

letter-IsLetter : (r : ℕ) → IsLetter (letter r)
unfolding letter
letter-IsLetter r = elim (Bool-cases (ltb (r % 52) 26)) [
  | inl e ↦ inl (ground (arith, e), ground (arith, e))
  | inr e ↦ inr (ground (arith, e), ground (arith, e))
]

fill_letters-outside :
    (rand : ℕ → ℕ) (at n count : ℕ) (bytes : ℕ → ℕ) (j : ℕ)
    → (j < at) ⊎ (at + n ≤ j)
    → (fill_letters rand at n (count, bytes)).1 j ≡ bytes j
unfolding fill_letters
fill_letters-outside rand at zero count bytes j h = refl
fill_letters-outside rand at (suc n) count bytes j (inl h) =
    fill_letters-outside rand (at + 1) n (count + 1) (set_byte at (letter (rand count)) bytes) j
      (inl (omega arith))
    ∙ ground arith
fill_letters-outside rand at (suc n) count bytes j (inr h) =
    fill_letters-outside rand (at + 1) n (count + 1) (set_byte at (letter (rand count)) bytes) j
      (inr (omega arith))
    ∙ ground arith

fill_letters-IsLetter :
    (rand : ℕ → ℕ) (at n count : ℕ) (bytes : ℕ → ℕ) (k : ℕ)
    → k < n
    → IsLetter ((fill_letters rand at n (count, bytes)).1 (at + k))
unfolding fill_letters
fill_letters-IsLetter rand at zero count bytes k h = absurd (omega arith)
fill_letters-IsLetter rand at (suc n) count bytes zero h =
    let b = set_byte at (letter (rand count)) bytes in
    let here : at + 0 ≡ at = omega arith in
    let value : (fill_letters rand (at + 1) n (count + 1, b)).1 (at + 0) ≡ letter (rand count) =
      fill_letters-outside rand (at + 1) n (count + 1) b (at + 0) (inl (omega arith))
      ∙ ground (arith, here) in
    subst IsLetter (sym value) (letter-IsLetter (rand count))
fill_letters-IsLetter rand at (suc n) count bytes (suc k) h =
    let there : at + 1 + k ≡ at + suc k = omega arith in
    subst
      (λ j.
        IsLetter
          ((fill_letters rand (at + 1) n (count + 1, set_byte at (letter (rand count)) bytes)).1 j))
      there
      (fill_letters-IsLetter rand (at + 1) n (count + 1) (set_byte at (letter (rand count)) bytes) k
        (omega arith))

-- Seven letters and a NUL.
pub record IsText (bytes : ℕ → ℕ) (g : ℕ) : Type 0 where
  pub letters : (k : ℕ) → k < 7 → IsLetter (bytes (g * 8 + k))
  pub nul : bytes (g * 8 + 7) ≡ 0

set_byte-other : (at c : ℕ) (bytes : ℕ → ℕ) (j : ℕ) → at ≢ j → set_byte at c bytes j ≡ bytes j
set_byte-other at c bytes j h = ground (arith, h)

-- Another string is left as it is.
pub write_string-other :
    (rand : ℕ → ℕ) (g g' count : ℕ) (bytes : ℕ → ℕ) (k : ℕ)
    → g ≢ g'
    → k < 8
    → (write_string rand g (count, bytes)).1 (g' * 8 + k) ≡ bytes (g' * 8 + k)
unfolding write_string
write_string-other rand g g' count bytes k ne h =
    set_byte-other (g * 8 + 7) 0 (fill_letters rand (g * 8) 7 (count, bytes)).1 (g' * 8 + k)
      (λ e. ne (omega (arith, e, h)))
    ∙ fill_letters-outside rand (g * 8) 7 count bytes (g' * 8 + k) (elim (Bool-cases (ltb g g')) [
      | inl e ↦ let less = ltb→lt g g' e in inr (omega (arith, less))
      | inr e ↦ elim (Bool-cases (ltb g' g)) [
        | inl u ↦ let less = ltb→lt g' g u in inl (omega (arith, less, h))
        | inr u ↦ absurd (ne (omega (arith, ltb-false→le g g' e, ltb-false→le g' g u)))
      ]
    ])

pub write_string-IsText :
    (rand : ℕ → ℕ) (g count : ℕ) (bytes : ℕ → ℕ) → IsText (write_string rand g (count, bytes)).1 g
unfolding write_string
write_string-IsText rand g count bytes =
    let b = (fill_letters rand (g * 8) 7 (count, bytes)).1 in
    record {
      letters = λ k h.
          subst IsLetter
            (sym (set_byte-other (g * 8 + 7) 0 b (g * 8 + k) (λ e. omega (arith, e, h))))
            (fill_letters-IsLetter rand (g * 8) 7 count bytes k h);
      nul = ground arith;
    }

abbrev pub AllLetters : Key → Type 0
AllLetters [] = Unit
AllLetters (c ∷ cs) = IsLetter c × AllLetters cs

nonzero : (c : ℕ) → IsLetter c → c ≢ 0
nonzero c (inl h) e = omega (arith, h, e)
nonzero c (inr h) e = omega (arith, h, e)

pub text-letters :
    (bytes : ℕ → ℕ) (at n : ℕ)
    → ((k : ℕ) → k < n → IsLetter (bytes (at + k)))
    → bytes (at + n) ≡ 0
    → (length (text bytes at (suc n)) ≡ n) × AllLetters (text bytes at (suc n))
unfolding text
text-letters bytes at zero h z =
    let ended : text bytes at 1 ≡ [] = ground (arith, z) in
    (ap length ended, subst AllLetters (sym ended) tt)
text-letters bytes at (suc n) h z =
    let letter_here : IsLetter (bytes at) =
      subst (λ j. IsLetter (bytes j)) (omega arith) (h 0 (omega arith)) in
    let some_left : text bytes at (suc (suc n)) ≡ bytes at ∷ text bytes (at + 1) (suc n) =
      ground (arith, nonzero (bytes at) letter_here) in
    let (count, letters) =
      text-letters bytes (at + 1) n
        (λ k l. subst (λ j. IsLetter (bytes j)) (omega arith) (h (suc k) (omega arith)))
        (ap bytes (omega arith) ∙ z) in
    (
      ap length some_left ∙ omega (arith, count),
      subst AllLetters (sym some_left) (letter_here, letters),
    )
