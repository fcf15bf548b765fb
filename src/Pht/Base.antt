-- ===== src/Pht/Base.antt =====
-- pht/src/hash-table-base.c: the sequential table.
use yep.Common.{
  ℕ, zero, suc, ◌+◌, Bool, true, false, Option, none, some, List, [], ◌∷◌, ◌++◌, ◌==◌,
  if◌then◌else◌,
}
use yep.Pht.Hash.{Key, capacity, index_of}
use yep.Pht.Chain.{Entry, get_list_entry, assign_value, value_at, lookup}

-- How a call ends: it returns, an `assert` fails, or it writes through a null pointer.
pub data Result (A : Type 0) : Type 0 where
  ok : A → Result A
  aborted : Result A
  crashed : Result A

-- `struct hash_table_base`: the array `entries`, by index.
abbrev pub Buckets : Type 0
Buckets = ℕ → List Entry

abbrev pub put_bucket : Buckets → ℕ → List Entry → Buckets
put_bucket t i es j = if i == j then es else t j

-- The loop of `hash_table_base_create` over `n` buckets from `i` on.
unfoldable pub init_lists : ℕ → ℕ → Buckets → Buckets
init_lists i zero t = t
init_lists i (suc n) t = init_lists (i + 1) n (put_bucket t i [])

-- `calloc` gives zeroes, which are empty lists, or NULL.
unfoldable pub hash_table_base_create : Bool → Result Buckets
hash_table_base_create allocates =
    if allocates then ok (init_lists 0 capacity (λ _. [])) else aborted

-- `get_list_head`: the index of the key's bucket; NULL as a key fails the `assert`.
unfoldable pub get_list_head : Option Key → Result ℕ
get_list_head none = aborted
get_list_head (some key) = ok (index_of key)

abbrev pub is_found : Option ℕ → Bool
is_found none = false
is_found (some p) = true

unfoldable pub hash_table_base_contains : Buckets → Option Key → Result Bool
unfolding get_list_head
hash_table_base_contains t none = aborted
hash_table_base_contains t (some key) = ok (is_found (get_list_entry (t (index_of key)) key))

-- The new value replaces the old one, or a new entry goes to the front of the list; its `calloc` is
-- not checked.
unfoldable pub store : Bool → List Entry → Key → ℕ → Result (List Entry)
store allocates es key v = elim (get_list_entry es key) [
  | some p ↦ ok (assign_value es p v)
  | none ↦ if allocates then ok (record { key = key; value = v } ∷ es) else crashed
]

unfoldable pub write_back : Buckets → ℕ → Result (List Entry) → Result Buckets
write_back t i (ok es) = ok (put_bucket t i es)
write_back t i aborted = aborted
write_back t i crashed = crashed

unfoldable pub hash_table_base_add_entry : Bool → Buckets → Option Key → ℕ → Result Buckets
unfolding store write_back
hash_table_base_add_entry allocates t none v = aborted
hash_table_base_add_entry allocates t (some key) v =
    write_back t (index_of key) (store allocates (t (index_of key)) key v)

abbrev pub checked : Option ℕ → Result ℕ
checked none = aborted
checked (some v) = ok v

unfoldable pub hash_table_base_get_value : Buckets → Option Key → Result ℕ
hash_table_base_get_value t none = aborted
hash_table_base_get_value t (some key) = elim (get_list_entry (t (index_of key)) key) [
  | none ↦ aborted
  | some p ↦ checked (value_at (t (index_of key)) p)
]

-- `while (!SLIST_EMPTY)`: the entries that are freed, in order, and the list that is left.
unfoldable pub free_list : List Entry → List Entry → List Entry × List Entry
free_list freed [] = (freed, [])
free_list freed (e ∷ es) = free_list (freed ++ e ∷ []) es

-- The loop of `hash_table_base_destroy` over `n` buckets from `i` on: the entries that are freed.
unfoldable pub free_lists : ℕ → ℕ → Buckets → List Entry → List Entry
unfolding free_list
free_lists i zero t freed = freed
free_lists i (suc n) t freed = free_lists (i + 1) n t (free_list freed (t i)).0

unfoldable pub hash_table_base_destroy : Buckets → List Entry
hash_table_base_destroy t = free_lists 0 capacity t []

-- The table as a map from keys to values.
unfoldable pub view : Buckets → Key → Option ℕ
view t key = lookup key (t (index_of key))
