-- ===== src/Pht/Tester.antt =====
-- pht/src/pht-tester.c: the runs over the tables, and the parser of the command line's numbers.
use yep.Common.{
  ℕ, ◌+◌, ◌-◌, ◌*◌, ◌%◌, ◌^◌, ◌≡◌, refl, true, Option, none, some, List, [], ◌∷◌, arith, ◌==◌, ltb,
  if◌then◌else◌,
}
use yep.Pht.Hash.{Key}
use yep.Pht.Chain.{same_key_refl}
use yep.Pht.Base.{
  Result, ok, aborted, crashed, Buckets, hash_table_base_add_entry, hash_table_base_contains, view,
}
use yep.Pht.BaseMap.{is_some, hash_table_base_add_entry-view, hash_table_base_reads}

-- The loop of `main` that adds every string with its global index, from `index` on.
unfoldable pub add_strings : Buckets → ℕ → List Key → Result Buckets
add_strings t index [] = ok t
add_strings t index (k ∷ ks) = elim (hash_table_base_add_entry true t (some k) index) [
  | ok t' ↦ add_strings t' (index + 1) ks
  | aborted ↦ aborted
  | crashed ↦ crashed
]

-- The loop of `main` that counts the strings that the table does not contain.
unfoldable pub count_missing : Buckets → List Key → ℕ → Result ℕ
count_missing t [] missing = ok missing
count_missing t (k ∷ ks) missing = elim (hash_table_base_contains t (some k)) [
  | ok found ↦ count_missing t ks (if found then missing else missing + 1)
  | aborted ↦ aborted
  | crashed ↦ crashed
]

-- Every key of the list is in the table.
abbrev pub Holds : Buckets → List Key → Type 0
Holds t [] = Unit
Holds t (k ∷ ks) = (is_some (view t k) ≡ true) × Holds t ks

pub count_missing-Holds :
    (t : Buckets) (ks : List Key) (m : ℕ) → Holds t ks → count_missing t ks m ≡ ok m
unfolding count_missing
count_missing-Holds t [] m h = refl
count_missing-Holds t (k ∷ ks) m h =
    ground (arith, h.0, (hash_table_base_reads t k).0, count_missing-Holds t ks m h.1)

-- What is in the table stays there.
abbrev pub Grows : Buckets → Buckets → Type 0
Grows t t' = (k : Key) → is_some (view t k) ≡ true → is_some (view t' k) ≡ true

add_strings-Holds :
    (t : Buckets) (index : ℕ) (ks : List Key)
    → (t' : Buckets) × (add_strings t index ks ≡ ok t') × Holds t' ks × Grows t t'
unfolding add_strings
add_strings-Holds t index [] = (t, refl, tt, λ k h. h)
add_strings-Holds t index (k ∷ ks) =
    let (t₁, run, map_of) = hash_table_base_add_entry-view t k index in
    let (t₂, rest, holds, grows) = add_strings-Holds t₁ (index + 1) ks in
    (
      t₂,
      ground (arith, run, rest),
      (grows k (ground (arith, map_of k, same_key_refl k)), holds),
      λ j h. grows j (ground (arith, map_of j, h)),
    )

-- If memory can be had, adding all the strings succeeds from any table, and the count of the strings
-- that are then missing is 0, whatever strings they are and however often one occurs.
pub add_strings-count_missing :
    (t : Buckets) (index : ℕ) (ks : List Key)
    → (t' : Buckets) × (add_strings t index ks ≡ ok t') × (count_missing t' ks 0 ≡ ok 0)
add_strings-count_missing t index ks =
    let (t', run, holds, grows) = add_strings-Holds t index ks in
    (t', run, count_missing-Holds t' ks 0 holds)

-- One round of the loop of `parse_uint32_t`, in uint32_t; `none` is `exit(EINVAL)`.
unfoldable pub parse_digit : ℕ → ℕ → ℕ → Option ℕ
parse_digit i current c =
    if i == 10
    then none
    else if ltb c 0x30
    then none
    else if ltb 0x39 c
    then none
    else if i == 9
    then (if ltb 429496729 current
        then none
        else if current == 429496729
        then (if ltb 5 (c - 0x30) then none else some ((current * 10 + (c - 0x30)) % 2 ^ 32))
        else some ((current * 10 + (c - 0x30)) % 2 ^ 32))
    else some ((current * 10 + (c - 0x30)) % 2 ^ 32)

unfoldable pub parse_from : ℕ → ℕ → List ℕ → Option ℕ
parse_from i current [] = some current
parse_from i current (c ∷ s) = elim (parse_digit i current c) [
  | none ↦ none
  | some n ↦ parse_from (i + 1) n s
]

unfoldable pub parse_uint32_t : List ℕ → Option ℕ
parse_uint32_t s = parse_from 0 0 s
