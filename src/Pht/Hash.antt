-- ===== src/Pht/Hash.antt =====
-- pht/src/hash-table-common.c: the hash of a key. A key is the list of the bytes before its NUL.
use yep.Common.{
  ℕ, ◌+◌, ◌-◌, ◌*◌, ◌/◌, ◌%◌, ◌^◌, ◌<◌, ◌≡◌, ap, List, [], ◌∷◌, length, arith, ltb, if◌then◌else◌,
}
use native.Mathlib.Nat.{pow-suc}

abbrev pub Key : Type 0
Key = List ℕ

-- A plain `char` is signed on the platforms that the program is built for, so a byte from 128 on is
-- a negative number, which the sum takes modulo 2 ^ 32.
unfoldable pub char_value : ℕ → ℕ
char_value c = if ltb c 128 then c else c + (2 ^ 32 - 256)

-- The loop of `bernstein_hash`, in uint32_t.
unfoldable pub hash_from : ℕ → Key → ℕ
unfolding char_value
hash_from hash [] = hash
hash_from hash (c ∷ s) = hash_from ((33 * hash + char_value c) % 2 ^ 32) s

unfoldable pub bernstein_hash : Key → ℕ
unfolding hash_from
bernstein_hash s = hash_from 0 s

-- `HASH_TABLE_CAPACITY`
abbrev pub capacity : ℕ
capacity = 4096

unfoldable pub index_of : Key → ℕ
index_of key = bernstein_hash key % capacity

-- The polynomial in 33 whose coefficients are the bytes, with no wrap.
unfoldable pub polynomial : Key → ℕ
polynomial [] = 0
polynomial (c ∷ s) = char_value c * 33 ^ length s + polynomial s

hash_from-polynomial :
    (hash : ℕ) (s : Key)
    → hash_from hash s % 2 ^ 32 ≡ (hash * 33 ^ length s + polynomial s) % 2 ^ 32
unfolding hash_from polynomial
hash_from-polynomial hash [] = omega arith
hash_from-polynomial hash (c ∷ s) =
    let x = 33 * hash + char_value c in
    let p = 33 ^ length s in
    let whole : x ≡ x / 2 ^ 32 * 2 ^ 32 + x % 2 ^ 32 = omega arith in
    omega (
      arith,
      hash_from-polynomial (x % 2 ^ 32) s,
      ap (λ (t : ℕ). hash * t) (pow-suc 33 (length s)),
      ap (λ (t : ℕ). t * p) whole,
    )

hash_from-lt : (hash : ℕ) (s : Key) → hash < 2 ^ 32 → hash_from hash s < 2 ^ 32
unfolding hash_from
hash_from-lt hash [] h = h
hash_from-lt hash (c ∷ s) h = hash_from-lt ((33 * hash + char_value c) % 2 ^ 32) s (omega arith)

-- Wrapping at every byte gives the same as wrapping once at the end: the hash of a key is the
-- polynomial in 33 with the key's bytes as coefficients, modulo 2 ^ 32.
pub bernstein_hash-polynomial : (s : Key) → bernstein_hash s ≡ polynomial s % 2 ^ 32
unfolding bernstein_hash
bernstein_hash-polynomial s =
    omega (arith, hash_from-polynomial 0 s, hash_from-lt 0 s (omega arith))

pub index_of-lt : (key : Key) → index_of key < capacity
unfolding index_of
index_of-lt key = omega arith
