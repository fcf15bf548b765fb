-- ===== src/Pht/Chain.antt =====
-- pht/src/hash-table-base.c, and the same text in hash-table-v1.c and hash-table-v2.c: the list of
-- entries of one bucket.
use yep.Common.{
  ℕ, zero, suc, ◌≡◌, ◌↔◌, refl, Bool, true, false, Option, none, some, List, [], ◌∷◌, arith, ◌==◌,
  if◌then◌else◌,
}
use yep.Pht.Hash.{Key}

-- `struct list_entry`; its link is the rest of the list.
pub record Entry : Type 0 where
  pub key : Key
  pub value : ℕ

-- `strcmp(a, b) == 0`
unfoldable pub same_key : Key → Key → Bool
same_key [] [] = true
same_key [] (d ∷ b) = false
same_key (c ∷ a) [] = false
same_key (c ∷ a) (d ∷ b) = if c == d then same_key a b else false

abbrev pub next_position : Option ℕ → Option ℕ
next_position none = none
next_position (some p) = some (suc p)

-- The loop of `get_list_entry`. The pointer that it returns is a position in the list.
unfoldable pub get_list_entry : List Entry → Key → Option ℕ
get_list_entry [] key = none
get_list_entry (e ∷ es) key =
    if same_key e.key key then some 0 else next_position (get_list_entry es key)

-- `list_entry->value = value`
unfoldable pub assign_value : List Entry → ℕ → ℕ → List Entry
assign_value [] p v = []
assign_value (e ∷ es) zero v = record e { value = v } ∷ es
assign_value (e ∷ es) (suc p) v = e ∷ assign_value es p v

-- `list_entry->value`
unfoldable pub value_at : List Entry → ℕ → Option ℕ
value_at [] p = none
value_at (e ∷ es) zero = some e.value
value_at (e ∷ es) (suc p) = value_at es p

-- The list as a map: the value of the first entry with the key.
unfoldable pub lookup : Key → List Entry → Option ℕ
lookup key [] = none
lookup key (e ∷ es) = if same_key e.key key then some e.value else lookup key es

pub same_key_refl : (a : Key) → same_key a a ≡ true
unfolding same_key
same_key_refl [] = refl
same_key_refl (c ∷ a) = ground (arith, same_key_refl a)

pub same_key-eq : (a b : Key) → same_key a b ≡ true → a ≡ b
unfolding same_key
same_key-eq [] [] h = refl
same_key-eq [] (d ∷ b) h = ground arith
same_key-eq (c ∷ a) [] h = ground arith
same_key-eq (c ∷ a) (d ∷ b) h = ground (arith, same_key-eq a b)

pub same_key_iff : (a b : Key) → (same_key a b ≡ true) ↔ (a ≡ b)
same_key_iff a b = (same_key-eq a b, λ e. ground (arith, same_key_refl a))

pub lookup-none : (es : List Entry) (k : Key) → get_list_entry es k ≡ none → lookup k es ≡ none
unfolding get_list_entry lookup
lookup-none [] k h = refl
lookup-none (e ∷ es) k h = ground (arith, lookup-none es k)

-- The value behind the pointer is the map's.
pub value_at-get_list_entry :
    (es : List Entry) (k : Key) (p : ℕ) → get_list_entry es k ≡ some p → value_at es p ≡ lookup k es
unfolding get_list_entry lookup value_at
value_at-get_list_entry [] k p h = ground arith
value_at-get_list_entry (e ∷ es) k zero h = ground arith
value_at-get_list_entry (e ∷ es) k (suc p) h = ground (arith, value_at-get_list_entry es k p)

pub get_list_entry-found :
    (es : List Entry) (k : Key) (p : ℕ)
    → get_list_entry es k ≡ some p
    → (v : ℕ) × (lookup k es ≡ some v)
unfolding get_list_entry lookup
get_list_entry-found [] k p h = absurd (ground arith)
get_list_entry-found (e ∷ es) k zero h = (e.value, ground arith)
get_list_entry-found (e ∷ es) k (suc p) h =
    let (v, f) = get_list_entry-found es k p (ground arith) in (v, ground arith)

-- A write through the pointer changes the map at the key alone.
pub lookup-assign_value :
    (es : List Entry) (k j : Key) (p v : ℕ)
    → get_list_entry es k ≡ some p
    → lookup j (assign_value es p v) ≡ (if same_key k j then some v else lookup j es)
unfolding get_list_entry lookup assign_value
lookup-assign_value [] k j p v h = ground arith
lookup-assign_value (e ∷ es) k j zero v h =
    ground (arith, same_key_iff e.key k, same_key_iff e.key j, same_key_iff k j)
lookup-assign_value (e ∷ es) k j (suc p) v h = ground (
  arith,
  same_key_iff e.key k,
  same_key_iff e.key j,
  same_key_iff k j,
  lookup-assign_value es k j p v,
)
