-- ===== src/Pht/Main.antt =====
-- pht/src/pht-tester.c: the arguments, the random strings and the phases of `main`.
use yep.Common.{
  ℕ, zero, suc, ◌+◌, ◌-◌, ◌*◌, ◌%◌, ◌^◌, true, Option, none, some, List, [], ◌∷◌, ◌++◌, ◌==◌, ltb,
  if◌then◌else◌,
}
use yep.Pht.Hash.{Key}
use yep.Pht.Base.{
  Result, ok, aborted, crashed, Buckets, hash_table_base_create, hash_table_base_add_entry,
}
use yep.Pht.Machine.{Job}
use yep.Pht.Tester.{parse_uint32_t, count_missing}

-- `struct arguments`
pub record Arguments : Type 0 where
  pub threads : ℕ
  pub size : ℕ

abbrev pub default_arguments : Arguments
default_arguments = record { threads = 4; size = 25000 }

-- `parse_opt` for the keys 't' and 's'; `none` where the parser of numbers ends the process.
unfoldable pub parse_opt : ℕ → List ℕ → Arguments → Option Arguments
parse_opt key arg arguments =
    if key == 116
    then elim (parse_uint32_t arg) [
      | none ↦ none
      | some n ↦ some (record arguments { threads = n })
    ]
    else if key == 115
    then elim (parse_uint32_t arg) [ none ↦ none | some n ↦ some (record arguments { size = n }) ]
    else some arguments

-- The sum is a uint32_t.
unfoldable pub get_global_index : Arguments → ℕ → ℕ → ℕ
get_global_index arguments thread index = (thread * arguments.size + index) % 2 ^ 32

abbrev pub bytes_per_string : ℕ
bytes_per_string = 8

-- The bytes before the NUL, of at most `n` from an address on.
unfoldable pub text : (ℕ → ℕ) → ℕ → ℕ → Key
text bytes at zero = []
text bytes at (suc n) =
    let rest = text bytes (at + 1) n in if bytes at == 0 then [] else bytes at ∷ rest

-- A string of `data`; its last byte is the NUL that `main` has written.
unfoldable pub get_string : (ℕ → ℕ) → ℕ → Key
get_string bytes global_index = text bytes (global_index * bytes_per_string) bytes_per_string

-- The strings that `calloc` makes room for; the product is a uint32_t.
unfoldable pub allocated_strings : Arguments → ℕ
allocated_strings arguments = arguments.threads * arguments.size % 2 ^ 32

abbrev pub set_byte : ℕ → ℕ → (ℕ → ℕ) → ℕ → ℕ
set_byte at c bytes j = if at == j then c else bytes j

-- A letter from an answer of `rand`.
unfoldable pub letter : ℕ → ℕ
letter r = if ltb (r % 52) 26 then r % 52 + 0x41 else r % 52 + 0x47

-- The loop over `k`: the number of answers of `rand` so far, and the data.
unfoldable pub fill_letters : (ℕ → ℕ) → ℕ → ℕ → ℕ × (ℕ → ℕ) → ℕ × (ℕ → ℕ)
fill_letters rand at zero s = s
fill_letters rand at (suc n) (count, bytes) =
    fill_letters rand (at + 1) n (count + 1, set_byte at (letter (rand count)) bytes)

-- The letters and the NUL of a string that is in the data.
unfoldable pub write_string : (ℕ → ℕ) → ℕ → ℕ × (ℕ → ℕ) → ℕ × (ℕ → ℕ)
write_string rand global_index s =
    let at = global_index * bytes_per_string in
    let (count, bytes) = fill_letters rand at (bytes_per_string - 1) s in
    (count, set_byte (at + (bytes_per_string - 1)) 0 bytes)

-- Where there is room for `allocated` strings: the eight bytes of a string are all inside the data,
-- or all outside, and then the first write is out of bounds, which is `none`.
unfoldable pub fill_string : ℕ → (ℕ → ℕ) → ℕ → ℕ × (ℕ → ℕ) → Option (ℕ × (ℕ → ℕ))
fill_string allocated rand global_index s =
    if ltb global_index allocated then some (write_string rand global_index s) else none

-- The global indices of the loop over `j` of one thread, for `n` indices from `j` on.
unfoldable pub row : Arguments → ℕ → ℕ → ℕ → List ℕ
row arguments thread j zero = []
row arguments thread j (suc n) =
    get_global_index arguments thread j ∷ row arguments thread (j + 1) n

-- Those of the loops over `i` and `j`, for `n` threads from `i` on.
unfoldable pub rows : Arguments → ℕ → ℕ → List ℕ
rows arguments i zero = []
rows arguments i (suc n) = row arguments i 0 arguments.size ++ rows arguments (i + 1) n

abbrev pub indices : Arguments → List ℕ
indices arguments = rows arguments 0 arguments.threads

unfoldable pub generate : ℕ → (ℕ → ℕ) → List ℕ → ℕ × (ℕ → ℕ) → Option (ℕ × (ℕ → ℕ))
generate allocated rand [] s = some s
generate allocated rand (g ∷ gs) s = elim (fill_string allocated rand g s) [
  | none ↦ none
  | some s' ↦ generate allocated rand gs s'
]

-- `data` after `calloc` and the generation, or `none` where a write is out of its bounds.
unfoldable pub data_of : (ℕ → ℕ) → Arguments → Option (ℕ → ℕ)
data_of rand arguments =
    elim (generate (allocated_strings arguments) rand (indices arguments) (0, λ _. 0)) [
      | none ↦ none
      | some (count, bytes) ↦ some bytes
    ]

-- The loop that adds each string of `data` with its global index to the table.
unfoldable pub add_each : Buckets → (ℕ → ℕ) → List ℕ → Result Buckets
add_each t bytes [] = ok t
add_each t bytes (g ∷ gs) = elim (hash_table_base_add_entry true t (some (get_string bytes g)) g) [
  | ok t' ↦ add_each t' bytes gs
  | aborted ↦ aborted
  | crashed ↦ crashed
]

abbrev pub strings : (ℕ → ℕ) → List ℕ → List Key
strings bytes [] = []
strings bytes (g ∷ gs) = get_string bytes g ∷ strings bytes gs

-- The number that `main` prints as missing, from a table.
unfoldable pub missing_in : Buckets → (ℕ → ℕ) → List ℕ → Result ℕ
missing_in t bytes gs = count_missing t (strings bytes gs) 0

-- The first phase of `main`, with the table of hash-table-base.c.
unfoldable pub run_base : (ℕ → ℕ) → Arguments → Result ℕ
run_base bytes arguments = elim (hash_table_base_create true) [
  | ok t₀ ↦ elim (add_each t₀ bytes (indices arguments)) [
    | ok t ↦ missing_in t bytes (indices arguments)
    | aborted ↦ aborted
    | crashed ↦ crashed
  ]
  | aborted ↦ aborted
  | crashed ↦ crashed
]

-- The additions of one thread, `run_v1` and `run_v2`.
unfoldable pub run_jobs : (ℕ → ℕ) → List ℕ → List Job
run_jobs bytes [] = []
run_jobs bytes (g ∷ gs) = record { key = get_string bytes g; value = g } ∷ run_jobs bytes gs
