-- ===== src/Pht/Tests.antt =====
-- Small tables and runs of pht/src, on which the theorems of the hash tables are applied.
use yep.Common.{
  ℕ, ◌*◌, ◌<◌, ◌↔◌, ◌^◌, ◌≡◌, refl, true, none, some, List, [], ◌∷◌, length, arith, ◌==◌, ◌&&◌, ltb,
  leb, if◌then◌else◌,
}
use yep.Pht.Hash.{Key, bernstein_hash, index_of}
use yep.Pht.Chain.{Entry, get_list_entry, same_key, assign_value}
use yep.Pht.Base.{ok, Buckets, put_bucket, hash_table_base_add_entry, view}
use yep.Pht.BaseMap.{hash_table_base_add_entry-view}
use yep.Pht.Tester.{parse_uint32_t}
use yep.Pht.Parse.{all_digits, decimal, parse_uint32_t_lem}
use yep.Pht.Machine.{
  v1, v2, Job, Shared, Pc, idle, locked, found, absent, linked, leaving, set_owner, set_list,
  list_of, Move, lock, hit, miss, update, link, publish, unlock, System, set_pc, Step, pick, Reach,
  init, start, later,
}
use yep.Pht.Safety.{mutual_exclusion, Effect, Move-atomic}
use yep.Pht.Progress.{v2_no_deadlock, v1_deadlock}
use yep.Pht.Main.{
  Arguments, get_global_index, text, get_string, row, indices, run_jobs, run_base, missing_in,
  data_of,
}
use yep.Pht.Indices.{Inside, get_global_index-Inside}
use yep.Pht.Letters.{AllTexts, data_of-AllLetters}
use yep.Pht.Missing.{jobs_of, run_base-missing}
use yep.Pht.Locked.{V2, returns, hash_table_v2_add_entry, hash_table_v2_add_entry-unlocked}

abbrev key_a : Key
key_a = 97 ∷ []

abbrev key_b : Key
key_b = 98 ∷ 200 ∷ []

-- A table with one entry, under the first key.
abbrev entry_a : Entry
entry_a = record { key = key_a; value = 1 }

abbrev table_a : Buckets
table_a = put_bucket (λ _. []) (index_of key_a) (entry_a ∷ [])

hash_table_base_add_entry-view_example :
    (t' : Buckets) × (hash_table_base_add_entry true table_a (some key_a) 5 ≡ ok t')
    × ((j : Key) → view t' j ≡ (if same_key key_a j then some 5 else view table_a j))
hash_table_base_add_entry-view_example = hash_table_base_add_entry-view table_a key_a 5

abbrev forty_two : List ℕ
forty_two = 0x34 ∷ 0x32 ∷ []

parse_uint32_t_lem_example : parse_uint32_t forty_two ≡ (
    if all_digits forty_two && leb (length forty_two) 10 && ltb (decimal 0 forty_two) (2 ^ 32)
    then some (decimal 0 forty_two)
    else none)
parse_uint32_t_lem_example = parse_uint32_t_lem forty_two

hash_table_v2_add_entry-unlocked_example :
    (m' : V2) × (hash_table_v2_add_entry true
        (record { locked = λ i. i == 7; table = table_a })
        (some key_a)
        5
      ≡ returns m')
    × ((i : ℕ) → m'.locked i ≡ (i == 7))
    × ((j : Key) → view m'.table j ≡ (if same_key key_a j then some 5 else view table_a j))
unfolding index_of bernstein_hash
hash_table_v2_add_entry-unlocked_example =
    hash_table_v2_add_entry-unlocked (record { locked = λ i. i == 7; table = table_a }) key_a 5 refl

-- Two threads, which add the first key twice each.
abbrev job_a : Job
job_a = record { key = key_a; value = 1 }

abbrev jobs : ℕ → List Job
jobs i = job_a ∷ job_a ∷ []

-- The state after a step of thread 0.
abbrev then_at : System → Shared → Pc → System
then_at s m p = record { mem = m; pc = set_pc s.pc 0 p }

abbrev lock_v2 : System
lock_v2 =
    then_at (init jobs) (set_owner (init jobs).mem (index_of key_a) (some 0))
      (locked job_a (job_a ∷ []))

lock_v2-Reach : Reach v2 2 jobs lock_v2
lock_v2-Reach = later start (pick 0 (omega arith) (lock refl))

mutual_exclusion_example : ◌≡◌ {A = ℕ} 0 0
mutual_exclusion_example = mutual_exclusion lock_v2-Reach 0 0 job_a job_a refl refl refl

lock_v2-miss : Move v2 0 lock_v2.mem (lock_v2.pc 0) lock_v2.mem (absent job_a (job_a ∷ []))
unfolding get_list_entry
lock_v2-miss = miss refl

Move-atomic_example :
    Effect lock_v2.mem.table lock_v2.mem.table (lock_v2.pc 0) (absent job_a (job_a ∷ []))
Move-atomic_example = Move-atomic lock_v2-Reach 0 lock_v2-miss

v2_no_deadlock_example : (t : System) × Step v2 2 lock_v2 t
v2_no_deadlock_example = v2_no_deadlock lock_v2-Reach 1 (omega arith) (λ h. ground arith)

-- The way of thread 0 through its first addition, up to the unlock, for a mutex with number `l`.
abbrev missed : ℕ → System
missed l =
    then_at (then_at (init jobs) (set_owner (init jobs).mem l (some 0)) (locked job_a (job_a ∷ [])))
      (set_owner (init jobs).mem l (some 0)) (absent job_a (job_a ∷ []))

abbrev prepared : ℕ → System
prepared l = then_at (missed l) (missed l).mem (linked [] job_a (job_a ∷ []))

abbrev published : ℕ → System
published l =
    then_at (prepared l) (set_list (prepared l).mem key_a (entry_a ∷ []))
      (leaving job_a (job_a ∷ []))

abbrev unlocked : ℕ → System
unlocked l = then_at (published l) (set_owner (published l).mem l none) (idle (job_a ∷ []))

-- Its second addition, up to the update.
abbrev relocked : ℕ → System
relocked l = then_at (unlocked l) (set_owner (unlocked l).mem l (some 0)) (locked job_a [])

abbrev hits : ℕ → System
hits l = then_at (relocked l) (relocked l).mem (found 0 job_a [])

abbrev updates : ℕ → System
updates l =
    then_at (hits l) (set_list (hits l).mem key_a (assign_value (list_of (hits l).mem key_a) 0 1))
      (leaving job_a [])

abbrev finished : ℕ → System
finished l = then_at (updates l) (set_owner (updates l).mem l none) (idle [])

unlocked-v1-Reach : Reach v1 2 jobs (unlocked 0)
unfolding get_list_entry same_key index_of bernstein_hash
unlocked-v1-Reach =
    later
      (later
        (later
          (later (later start (pick 0 (omega arith) (lock refl)))
            (pick 0 (omega arith) (miss refl)))
          (pick 0 (omega arith) link))
        (pick 0 (omega arith) publish))
      (pick 0 (omega arith) unlock)

hits-v1-Reach : Reach v1 2 jobs (hits 0)
unfolding get_list_entry same_key index_of bernstein_hash
hits-v1-Reach =
    later (later unlocked-v1-Reach (pick 0 (omega arith) (lock refl)))
      (pick 0 (omega arith) (hit refl))

unlocked-v2-Reach : Reach v2 2 jobs (unlocked (index_of key_a))
unfolding get_list_entry same_key index_of bernstein_hash
unlocked-v2-Reach =
    later
      (later
        (later
          (later (later start (pick 0 (omega arith) (lock refl)))
            (pick 0 (omega arith) (miss refl)))
          (pick 0 (omega arith) link))
        (pick 0 (omega arith) publish))
      (pick 0 (omega arith) unlock)

finished-v2-Reach : Reach v2 2 jobs (finished (index_of key_a))
unfolding get_list_entry same_key index_of bernstein_hash
finished-v2-Reach =
    later
      (later
        (later (later unlocked-v2-Reach (pick 0 (omega arith) (lock refl)))
          (pick 0 (omega arith) (hit refl)))
        (pick 0 (omega arith) update))
      (pick 0 (omega arith) unlock)

v1_deadlock_example :
    (t : System) × Step v1 2 (hits 0) t × (t.pc 0 ≡ idle []) × ((u : System) → ¬ Step v1 2 t u)
v1_deadlock_example = v1_deadlock hits-v1-Reach 0 0 job_a [] (omega arith) refl

-- One thread with one string, the first key.
abbrev one_string : Arguments
one_string = record { threads = 1; size = 1 }

abbrev one_byte : ℕ → ℕ
one_byte i = if i == 0 then 97 else 0

abbrev job_once : Job
job_once = record { key = key_a; value = 0 }

abbrev once_init : System
once_init = init (jobs_of one_byte one_string)

abbrev once_missed : System
once_missed =
    then_at (then_at once_init (set_owner once_init.mem 0 (some 0)) (locked job_once []))
      (set_owner once_init.mem 0 (some 0)) (absent job_once [])

abbrev once_prepared : System
once_prepared = then_at once_missed once_missed.mem (linked [] job_once [])

abbrev once_published : System
once_published =
    then_at once_prepared
      (set_list once_prepared.mem key_a (record { key = key_a; value = 0 } ∷ []))
      (leaving job_once [])

abbrev once_ended : System
once_ended = then_at once_published (set_owner once_published.mem 0 none) (idle [])

once_ended-Reach : Reach v1 1 (jobs_of one_byte one_string) once_ended
unfolding get_list_entry same_key index_of bernstein_hash run_jobs row get_string text
    get_global_index
once_ended-Reach =
    later
      (later
        (later
          (later (later start (pick 0 (omega arith) (lock refl)))
            (pick 0 (omega arith) (miss refl)))
          (pick 0 (omega arith) link))
        (pick 0 (omega arith) publish))
      (pick 0 (omega arith) unlock)

run_base-missing_example :
    (run_base one_byte one_string ≡ ok 0)
    × (missing_in once_ended.mem.table one_byte (indices one_string) ≡ ok 0)
run_base-missing_example =
    run_base-missing one_byte one_string once_ended-Reach (λ i h. ground (arith, h))

get_global_index-Inside_example : Inside one_string ↔ (1 * 1 < 2 ^ 32)
get_global_index-Inside_example = get_global_index-Inside one_string

data_of-AllLetters_example :
    (bytes : ℕ → ℕ) × (data_of (λ n. n) one_string ≡ some bytes)
    × AllTexts bytes (indices one_string)
data_of-AllLetters_example = data_of-AllLetters (λ n. n) one_string (omega arith)
