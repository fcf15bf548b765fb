-- ===== src/Pht/Locked.antt =====
-- pht/src/hash-table-v1.c and hash-table-v2.c: the calls of one thread, with what they do to the
-- mutexes. Bucket code that the two files repeat from hash-table-base.c is shared with Pht/Base.
use yep.Common.{
  ℕ, ◌≡◌, Bool, true, false, Option, none, some, List, [], ◌∷◌, arith, ◌==◌, if◌then◌else◌,
  Option-cases, inl, inr,
}
use yep.Pht.Hash.{Key, capacity, index_of}
use yep.Pht.Chain.{
  Entry, get_list_entry, assign_value, lookup, same_key, same_key_iff, lookup-none,
  get_list_entry-found, lookup-assign_value,
}
use yep.Pht.Base.{
  Result, Buckets, put_bucket, init_lists, hash_table_base_contains, hash_table_base_get_value,
  hash_table_base_destroy, view,
}
use yep.Pht.BaseMap.{is_some}

-- A call returns, or waits for a mutex for ever, or ends the process.
pub data Call (A : Type 0) : Type 0 where
  returns : A → Call A
  blocks : Call A
  asserts : Call A
  crashes : Call A

-- The table of version 1 with its one mutex, and of version 2 with the mutex of each bucket: whether
-- it is locked.
pub record V1 : Type 0 where
  pub locked : Bool
  pub table : Buckets

pub record V2 : Type 0 where
  pub locked : ℕ → Bool
  pub table : Buckets

-- The mutex of version 1 is initialised statically, before any call.
unfoldable pub hash_table_v1_create : Bool → Call V1
hash_table_v1_create allocates =
    if allocates
    then returns (record { locked = false; table = init_lists 0 capacity (λ _. []) })
    else asserts

-- The new entry in front of the list; its `calloc` is not checked.
unfoldable pub hash_table_v1_add_entry : Bool → V1 → Option Key → ℕ → Call V1
hash_table_v1_add_entry allocates m none v = if m.locked then blocks else asserts
hash_table_v1_add_entry allocates m (some key) v =
    if m.locked then blocks else elim (get_list_entry (m.table (index_of key)) key) [
      | some p ↦ returns (record {
        locked = true;
        table = put_bucket m.table (index_of key) (assign_value (m.table (index_of key)) p v);
      })
      | none ↦
          if allocates
          then returns (record {
            locked = false;
            table =
                put_bucket m.table (index_of key)
                  (record { key = key; value = v } ∷ m.table (index_of key));
          })
          else crashes
    ]

unfoldable pub hash_table_v1_contains : V1 → Option Key → Result Bool
hash_table_v1_contains m key = hash_table_base_contains m.table key

unfoldable pub hash_table_v1_get_value : V1 → Option Key → Result ℕ
hash_table_v1_get_value m key = hash_table_base_get_value m.table key

unfoldable pub hash_table_v1_destroy : V1 → List Entry
hash_table_v1_destroy m = hash_table_base_destroy m.table

-- The loop of `hash_table_v2_create` initialises a mutex with each list.
unfoldable pub hash_table_v2_create : Bool → Call V2
hash_table_v2_create allocates =
    if allocates
    then returns (record { locked = λ i. false; table = init_lists 0 capacity (λ _. []) })
    else asserts

abbrev pub set_locked : (ℕ → Bool) → ℕ → Bool → ℕ → Bool
set_locked locked i b j = if i == j then b else locked j

unfoldable pub hash_table_v2_add_entry : Bool → V2 → Option Key → ℕ → Call V2
hash_table_v2_add_entry allocates m none v = asserts
hash_table_v2_add_entry allocates m (some key) v =
    let i = index_of key in
    if m.locked i
    then blocks
    else (let held = set_locked m.locked i true in
        elim (get_list_entry (m.table i) key) [
          | some p ↦ returns (record {
            locked = set_locked held i false;
            table = put_bucket m.table i (assign_value (m.table i) p v);
          })
          | none ↦
              if allocates
              then returns (record {
                locked = set_locked held i false;
                table = put_bucket m.table i (record { key = key; value = v } ∷ m.table i);
              })
              else crashes
        ])

unfoldable pub hash_table_v2_contains : V2 → Option Key → Result Bool
hash_table_v2_contains m key = hash_table_base_contains m.table key

unfoldable pub hash_table_v2_get_value : V2 → Option Key → Result ℕ
hash_table_v2_get_value m key = hash_table_base_get_value m.table key

unfoldable pub hash_table_v2_destroy : V2 → List Entry
hash_table_v2_destroy m = hash_table_base_destroy m.table

-- Of version 1, with its mutex unlocked and memory to be had: an addition returns and maps the key
-- to the value and the other keys as before, and it leaves the mutex locked exactly if the key was
-- in the table.
pub hash_table_v1_add_entry-locked :
    (m : V1) (k : Key) (v : ℕ)
    → m.locked ≡ false
    → (m' : V1) × (hash_table_v1_add_entry true m (some k) v ≡ returns m')
      × (m'.locked ≡ is_some (view m.table k))
      × ((j : Key) → view m'.table j ≡ (if same_key k j then some v else view m.table j))
unfolding hash_table_v1_add_entry view
hash_table_v1_add_entry-locked m k v free =
    let es = m.table (index_of k) in
    elim (Option-cases (get_list_entry es k)) [
      | inl e ↦ (
        record {
          locked = false;
          table = put_bucket m.table (index_of k) (record { key = k; value = v } ∷ es);
        },
        ground (arith, e),
        ground (arith, lookup-none es k e),
        λ j. unfold lookup in ground (arith, same_key_iff k j),
      )
      | inr (p, e) ↦
          let (u, f) = get_list_entry-found es k p e in
          (
            record { locked = true; table = put_bucket m.table (index_of k) (assign_value es p v) },
            ground (arith, e),
            ground (arith, f),
            λ j. ground (arith, lookup-assign_value es k j p v e, same_key_iff k j),
          )
    ]

-- After an addition of version 1 under a key that was in the table, every later addition blocks,
-- whatever its key.
pub hash_table_v1_add_entry-blocks :
    (m m' : V1) (k j : Key) (v w : ℕ)
    → is_some (view m.table k) ≡ true
    → hash_table_v1_add_entry true m (some k) v ≡ returns m'
    → hash_table_v1_add_entry true m' (some j) w ≡ blocks
unfolding hash_table_v1_add_entry view
hash_table_v1_add_entry-blocks m m' k j v w there run =
    ground (arith, lookup-none (m.table (index_of k)) k)

-- Of version 2, with the mutex of the key's bucket unlocked and memory to be had: an addition
-- returns, maps the key to the value and the other keys as before, and leaves every mutex as it was.
pub hash_table_v2_add_entry-unlocked :
    (m : V2) (k : Key) (v : ℕ)
    → m.locked (index_of k) ≡ false
    → (m' : V2) × (hash_table_v2_add_entry true m (some k) v ≡ returns m')
      × ((i : ℕ) → m'.locked i ≡ m.locked i)
      × ((j : Key) → view m'.table j ≡ (if same_key k j then some v else view m.table j))
unfolding hash_table_v2_add_entry view
hash_table_v2_add_entry-unlocked m k v free =
    let es = m.table (index_of k) in
    let i = index_of k in
    let locks = set_locked (set_locked m.locked i true) i false in
    elim (Option-cases (get_list_entry es k)) [
      | inl e ↦ (
        record {
          locked = locks;
          table = put_bucket m.table i (record { key = k; value = v } ∷ es);
        },
        ground (arith, e),
        λ l. ground (arith, free),
        λ j. unfold lookup in ground (arith, same_key_iff k j),
      )
      | inr (p, e) ↦ (
        record { locked = locks; table = put_bucket m.table i (assign_value es p v) },
        ground (arith, e),
        λ l. ground (arith, free),
        λ j. ground (arith, lookup-assign_value es k j p v e, same_key_iff k j),
      )
    ]
