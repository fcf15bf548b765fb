-- ===== src/Pht/BaseMap.antt =====
-- pht/src/hash-table-base.c refines a map from keys to values.
use yep.Common.{
  ℕ, zero, suc, ◌+◌, ◌≡◌, refl, ap, Bool, true, false, Option, none, some, List, [], ◌∷◌, arith,
  if◌then◌else◌, Option-cases, inl, inr,
}
use yep.Pht.Hash.{Key, capacity, index_of}
use yep.Pht.Chain.{
  Entry, get_list_entry, assign_value, lookup, same_key, same_key_iff, lookup-none,
  value_at-get_list_entry, get_list_entry-found, lookup-assign_value,
}
use yep.Pht.Base.{
  ok, Buckets, put_bucket, init_lists, hash_table_base_create, hash_table_base_contains, store,
  hash_table_base_add_entry, checked, hash_table_base_get_value, view,
}

-- Where a map has `v` at the key, and else what it had.
abbrev pub updated : Key → ℕ → (Key → Option ℕ) → Key → Option ℕ
updated k v f j = if same_key k j then some v else f j

abbrev pub is_some : Option ℕ → Bool
is_some none = false
is_some (some v) = true

pub lookup-store :
    (es : List Entry) (k : Key) (v : ℕ)
    → (es' : List Entry) × (store true es k v ≡ ok es')
      × ((j : Key) → lookup j es' ≡ updated k v (λ i. lookup i es) j)
unfolding store
lookup-store es k v = elim (Option-cases (get_list_entry es k)) [
  | inl e ↦ (record { key = k; value = v } ∷ es, ground (arith, e), λ j. unfold lookup in refl)
  | inr (p, e) ↦ (assign_value es p v, ground (arith, e), λ j. lookup-assign_value es k j p v e)
]

-- If memory can be had, adding an entry succeeds, and the table then maps the key to the value and
-- every other key to what it mapped it to before.
pub hash_table_base_add_entry-view :
    (t : Buckets) (k : Key) (v : ℕ)
    → (t' : Buckets) × (hash_table_base_add_entry true t (some k) v ≡ ok t')
      × ((j : Key) → view t' j ≡ (if same_key k j then some v else view t j))
unfolding hash_table_base_add_entry view
hash_table_base_add_entry-view t k v =
    let (es, run, map_of) = lookup-store (t (index_of k)) k v in
    (
      put_bucket t (index_of k) es,
      ground (arith, run),
      λ j. ground (arith, map_of j, same_key_iff k j),
    )

-- `contains` answers whether the table maps the key to a value, and `get_value` returns that value;
-- without one its assertion fails.
pub hash_table_base_reads :
    (t : Buckets) (k : Key)
    → (hash_table_base_contains t (some k) ≡ ok (is_some (view t k)))
      × (hash_table_base_get_value t (some k) ≡ checked (view t k))
unfolding hash_table_base_contains hash_table_base_get_value view
hash_table_base_reads t k = elim (Option-cases (get_list_entry (t (index_of k)) k)) [
  | inl e ↦ (
    ground (arith, lookup-none (t (index_of k)) k),
    ground (arith, lookup-none (t (index_of k)) k),
  )
  | inr (p, e) ↦
      let (v, f) = get_list_entry-found (t (index_of k)) k p e in
      (ground (arith, f), ground (arith, f, value_at-get_list_entry (t (index_of k)) k p))
]

init_lists-empty :
    (i n : ℕ) (t : Buckets) → ((j : ℕ) → t j ≡ []) → (j : ℕ) → init_lists i n t j ≡ []
unfolding init_lists
init_lists-empty i zero t h j = h j
init_lists-empty i (suc n) t h j =
    init_lists-empty (i + 1) n (put_bucket t i []) (λ k. ground (arith, h k)) j

-- A new table maps no key to a value.
pub hash_table_base_create-view :
    (t : Buckets) × (hash_table_base_create true ≡ ok t) × ((k : Key) → view t k ≡ none)
unfolding hash_table_base_create view lookup
hash_table_base_create-view = (
  init_lists 0 capacity (λ _. []),
  refl,
  λ k. ap (lookup k) (init_lists-empty 0 capacity (λ _. []) (λ j. refl) (index_of k)),
)
