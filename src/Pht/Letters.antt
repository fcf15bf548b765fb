-- ===== src/Pht/Letters.antt =====
-- pht/src/pht-tester.c: the strings that `main` generates.
use yep.Common.{
  some, none, lt→ltb, ◌++◌, ◌^◌, if◌then◌else◌, ℕ, zero, suc, ◌+◌, ◌*◌, ◌<◌, ◌≡◌, ◌≢◌, refl, sym,
  subst, ap, ◌∙◌, ◌⊎◌, List, [], ◌∷◌, ◌==◌, length, arith, Bool-cases, inl, inr,
}
use yep.Pht.Texts.{
  IsLetter, IsText, write_string-other, write_string-IsText, AllLetters, text-letters,
}
use yep.Pht.Indices.{get_global_index-Inside}
use yep.Pht.Main.{
  row, rows, get_global_index, allocated_strings, fill_string, Arguments, write_string, generate,
  get_string, indices, data_of,
}

-- The strings at the indices of the list, or that are there already.
unfoldable In : ℕ → List ℕ → Type 0
In g [] = ⊥
In g (x ∷ xs) = (x ≡ g) ⊎ In g xs

In-append : (g : ℕ) (xs ys : List ℕ) → In g (xs ++ ys) → In g xs ⊎ In g ys
unfolding In
In-append g [] ys h = inr h
In-append g (x ∷ xs) ys (inl h) = inl (inl h)
In-append g (x ∷ xs) ys (inr h) = elim (In-append g xs ys h) [ inl a ↦ inl (inr a) | inr a ↦ inr a ]

-- An index of the loops is that of a round of a thread.
row-In :
    (arguments : Arguments) (thread j n g : ℕ)
    → In g (row arguments thread j n)
    → (k : ℕ) × (k < j + n) × (g ≡ get_global_index arguments thread k)
unfolding row In
row-In arguments thread j zero g h = absurd h
row-In arguments thread j (suc n) g (inl h) = (j, omega arith, sym h)
row-In arguments thread j (suc n) g (inr h) =
    let (k, less, e) = row-In arguments thread (j + 1) n g h in (k, omega (arith, less), e)

rows-In :
    (arguments : Arguments) (i n g : ℕ)
    → In g (rows arguments i n)
    → (t : ℕ) × (k : ℕ) × (t < i + n) × (k < arguments.size) × (g ≡ get_global_index arguments t k)
unfolding rows In
rows-In arguments i zero g h = absurd h
rows-In arguments i (suc n) g h =
    elim (In-append g (row arguments i 0 arguments.size) (rows arguments (i + 1) n) h) [
      | inl a ↦
          let (k, less, e) = row-In arguments i 0 arguments.size g a in
          (i, k, omega arith, omega (arith, less), e)
      | inr a ↦
          let (t, k, less, small, e) = rows-In arguments (i + 1) n g a in
          (t, k, omega (arith, less), small, e)
    ]

-- Where each index is inside the data, the generation runs, and there are texts at the indices of the
-- list and where there were texts already.
generate-IsText :
    (allocated : ℕ) (rand : ℕ → ℕ) (gs : List ℕ) (count : ℕ) (bytes : ℕ → ℕ)
    → ((g : ℕ) → In g gs → g < allocated)
    → (count' : ℕ) × (bytes' : ℕ → ℕ) × (generate allocated rand gs (count, bytes)
        ≡ some (count', bytes'))
      × ((g : ℕ) → In g gs ⊎ IsText bytes g → IsText bytes' g)
unfolding generate In fill_string
generate-IsText allocated rand [] count bytes fits =
    (count, bytes, refl, λ g h. elim h [ inl a ↦ absurd a | inr t ↦ t ])
generate-IsText allocated rand (x ∷ xs) count bytes fits =
    let s = write_string rand x (count, bytes) in
    let (count', bytes', run, texts) =
      generate-IsText allocated rand xs s.0 s.1 (λ g h. fits g (inr h)) in
    (
      count',
      bytes',
      ap
            (λ b. elim (if b then some s else none) [
              | none ↦ none
              | some s' ↦ generate allocated rand xs s'
            ])
            (lt→ltb x allocated (fits x (inl refl)))
          ∙ run,
      λ g h. texts g (elim (Bool-cases (x == g)) [
        | inl e ↦ inr (subst (IsText s.1) (ground arith) (write_string-IsText rand x count bytes))
        | inr e ↦
            let ne : x ≢ g = λ same. ground (arith, e, same) in
            elim h [
              | inl (inl same) ↦ absurd (ne same)
              | inl (inr later) ↦ inl later
              | inr t ↦ inr (record {
                letters = λ k l.
                    subst IsLetter
                      (sym (write_string-other rand x g count bytes k ne (omega arith)))
                      (t.letters k l);
                nul = write_string-other rand x g count bytes 7 ne (omega arith) ∙ t.nul;
              })
            ]
      ]),
    )

-- The strings at the indices have seven bytes before the NUL, which are letters.
abbrev pub AllTexts : (ℕ → ℕ) → List ℕ → Type 0
AllTexts bytes [] = Unit
AllTexts bytes (g ∷ gs) =
    (length (get_string bytes g) ≡ 7) × AllLetters (get_string bytes g) × AllTexts bytes gs

all_texts : (bytes : ℕ → ℕ) (gs : List ℕ) → ((g : ℕ) → In g gs → IsText bytes g) → AllTexts bytes gs
unfolding In get_string
all_texts bytes [] h = tt
all_texts bytes (g ∷ gs) h =
    let t = h g (inl refl) in
    let (count, letters) = text-letters bytes (g * 8) 7 t.letters t.nul in
    (count, letters, all_texts bytes gs (λ j k. h j (inr k)))

-- Whatever `rand` answers, if there are fewer than 2 ^ 32 strings: the generation writes inside the
-- data only, and then the string at each index that the loops of `main` use has seven bytes before its
-- NUL, each of them a letter.
pub data_of-AllLetters :
    (rand : ℕ → ℕ) (arguments : Arguments)
    → arguments.threads * arguments.size < 2 ^ 32
    → (bytes : ℕ → ℕ) × (data_of rand arguments ≡ some bytes) × AllTexts bytes (indices arguments)
unfolding data_of
data_of-AllLetters rand arguments small =
    let (count, bytes, run, texts) =
      generate-IsText (allocated_strings arguments) rand (indices arguments) 0 (λ _. 0)
        (λ g h.
          let (t, k, less, short, e) = rows-In arguments 0 arguments.threads g h in
          subst (λ z. z < allocated_strings arguments) (sym e)
            ((get_global_index-Inside arguments).1 small t k (omega (arith, less)) short)) in
    (bytes, ground (arith, run), all_texts bytes (indices arguments) (λ g h. texts g (inl h)))
