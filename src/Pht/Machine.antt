-- ===== src/Pht/Machine.antt =====
-- The threads of pht/src/pht-tester.c that add entries to one locked table, as interleaved steps of
-- `hash_table_v1_add_entry` or `hash_table_v2_add_entry`. A step is one access to shared memory, or the
-- whole search of a list, which the mutex of the list protects.
use yep.Common.{
  ℕ, ◌<◌, ◌≡◌, Bool, true, false, Option, none, some, List, [], ◌∷◌, ◌==◌, if◌then◌else◌,
}
use yep.Pht.Hash.{Key, index_of}
use yep.Pht.Chain.{Entry, get_list_entry, assign_value}
use yep.Pht.Base.{Buckets, put_bucket}

-- Where the two files differ: the mutex that an addition locks, and whether the branch that updates
-- an entry unlocks it. Keys of one bucket have one mutex.
pub record Version : Type 0 where
  pub lock_of : Key → ℕ
  pub unlocks_update : Bool
  pub covers : (a b : Key) → index_of a ≡ index_of b → lock_of a ≡ lock_of b

-- hash-table-v1.c: one mutex, and the update returns with it locked.
abbrev pub v1 : Version
v1 = record { lock_of = λ k. 0; unlocks_update = false; covers = λ a b e. refl_zero }
  where
    refl_zero : ◌≡◌ {A = ℕ} 0 0
    refl_zero = λ i. 0

-- hash-table-v2.c: one mutex for each bucket.
abbrev pub v2 : Version
v2 = record { lock_of = index_of; unlocks_update = true; covers = λ a b e. e }

-- A call of `add_entry` that a thread makes.
pub record Job : Type 0 where
  pub key : Key
  pub value : ℕ

-- The shared memory: who has locked each mutex, and the lists.
pub record Shared : Type 0 where
  pub owner : ℕ → Option ℕ
  pub table : Buckets

-- Where a thread stands, with the jobs of its loop that it has not begun.
pub data Pc : Type 0 where
  idle : List Job → Pc  -- head of the loop in `run_v1` or `run_v2`
  locked : Job → List Job → Pc  -- the mutex is locked
  found : ℕ → Job → List Job → Pc  -- `list_entry` points to an entry
  absent : Job → List Job → Pc  -- `list_entry` is NULL
  linked : List Entry → Job → List Job → Pc  -- the new entry's link is set
  leaving : Job → List Job → Pc  -- before `pthread_mutex_unlock`

abbrev pub set_owner : Shared → ℕ → Option ℕ → Shared
set_owner m l o = record m { owner = λ j. if l == j then o else m.owner j }

abbrev pub set_list : Shared → Key → List Entry → Shared
set_list m k es = record m { table = put_bucket m.table (index_of k) es }

abbrev pub list_of : Shared → Key → List Entry
list_of m k = m.table (index_of k)

-- Where the update of an entry leads.
abbrev pub after_update : Bool → Job → List Job → Pc
after_update true job js = leaving job js
after_update false job js = idle js

-- One step of thread `i`.
pub data Move (ver : Version) (i : ℕ) (m : Shared) : Pc → Shared → Pc → Type 0 where
  lock :
      {job : Job} {js : List Job}
      → m.owner (ver.lock_of job.key) ≡ none
      → Move ver i m (idle (job ∷ js)) (set_owner m (ver.lock_of job.key) (some i)) (locked job js)
  hit :
      {p : ℕ} {job : Job} {js : List Job}
      → get_list_entry (list_of m job.key) job.key ≡ some p
      → Move ver i m (locked job js) m (found p job js)
  miss :
      {job : Job} {js : List Job}
      → get_list_entry (list_of m job.key) job.key ≡ none
      → Move ver i m (locked job js) m (absent job js)
  update :
      {p : ℕ} {job : Job} {js : List Job}
      → Move ver i m
          (found p job js)
          (set_list m job.key (assign_value (list_of m job.key) p job.value))
          (after_update ver.unlocks_update job js)
  link :
      {job : Job} {js : List Job}
      → Move ver i m (absent job js) m (linked (list_of m job.key) job js)
  publish :
      {next : List Entry} {job : Job} {js : List Job}
      → Move ver i m
          (linked next job js)
          (set_list m job.key (record { key = job.key; value = job.value } ∷ next))
          (leaving job js)
  unlock :
      {job : Job} {js : List Job}
      → Move ver i m (leaving job js) (set_owner m (ver.lock_of job.key) none) (idle js)

pub record System : Type 0 where
  pub mem : Shared
  pub pc : ℕ → Pc

abbrev pub set_pc : (ℕ → Pc) → ℕ → Pc → ℕ → Pc
set_pc pc i p j = if i == j then p else pc j

-- Some thread of the `n` makes a step.
pub data Step (ver : Version) (n : ℕ) (s : System) : System → Type 0 where
  pick :
      (i : ℕ) {m : Shared} {p : Pc}
      → i < n
      → Move ver i s.mem (s.pc i) m p
      → Step ver n s (record { mem = m; pc = set_pc s.pc i p })

-- A new table and unlocked mutexes; each thread has its jobs before it.
abbrev pub init : (ℕ → List Job) → System
init jobs = record { mem = record { owner = λ l. none; table = λ i. [] }; pc = λ i. idle (jobs i) }

pub data Reach (ver : Version) (n : ℕ) (jobs : ℕ → List Job) : System → Type 0 where
  start : Reach ver n jobs (init jobs)
  later : {s t : System} → Reach ver n jobs s → Step ver n s t → Reach ver n jobs t
