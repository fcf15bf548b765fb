-- ===== src/Pht/Missing.antt =====
-- pht/src/pht-tester.c: the numbers of missing strings that `main` prints.
use yep.Common.{ℕ, zero, suc, ◌+◌, ◌≤◌, ◌<◌, ◌≡◌, refl, List, [], ◌∷◌, ◌++◌, arith}
use yep.Pht.Hash.{capacity}
use yep.Pht.Chain.{same_key_refl}
use yep.Pht.Base.{ok, Buckets, init_lists, hash_table_base_create}
use yep.Pht.BaseMap.{hash_table_base_add_entry-view}
use yep.Pht.Machine.{Version, Job, System, Reach, idle}
use yep.Pht.Safety.{Stored, no_lost_entry}
use yep.Pht.Tester.{Holds, count_missing-Holds, Grows}
use yep.Pht.Main.{
  Arguments, get_string, row, rows, indices, add_each, strings, missing_in, run_base, run_jobs,
}

add_each-Holds :
    (t : Buckets) (bytes : ℕ → ℕ) (gs : List ℕ)
    → (t' : Buckets) × (add_each t bytes gs ≡ ok t') × Holds t' (strings bytes gs) × Grows t t'
unfolding add_each
add_each-Holds t bytes [] = (t, refl, tt, λ k h. h)
add_each-Holds t bytes (g ∷ gs) =
    let k = get_string bytes g in
    let (t₁, run, map_of) = hash_table_base_add_entry-view t k g in
    let (t₂, rest, holds, grows) = add_each-Holds t₁ bytes gs in
    (
      t₂,
      ground (arith, run, rest),
      (grows k (ground (arith, map_of k, same_key_refl k)), holds),
      λ j h. grows j (ground (arith, map_of j, h)),
    )

Holds-append :
    (t : Buckets) (bytes : ℕ → ℕ) (gs hs : List ℕ)
    → Holds t (strings bytes gs)
    → Holds t (strings bytes hs)
    → Holds t (strings bytes (gs ++ hs))
Holds-append t bytes [] hs h k = k
Holds-append t bytes (g ∷ gs) hs h k = (h.0, Holds-append t bytes gs hs h.1 k)

Stored-Holds :
    (t : Buckets) (bytes : ℕ → ℕ) (gs : List ℕ)
    → Stored t (run_jobs bytes gs)
    → Holds t (strings bytes gs)
unfolding run_jobs
Stored-Holds t bytes [] h = tt
Stored-Holds t bytes (g ∷ gs) h = (h.0, Stored-Holds t bytes gs h.1)

-- The jobs of each thread of `main`.
abbrev pub jobs_of : (ℕ → ℕ) → Arguments → ℕ → List Job
jobs_of bytes arguments i = run_jobs bytes (row arguments i 0 arguments.size)

rows-Holds :
    (t : Buckets) (bytes : ℕ → ℕ) (arguments : Arguments) (i n : ℕ)
    → ((k : ℕ) → i ≤ k → k < i + n → Stored t (jobs_of bytes arguments k))
    → Holds t (strings bytes (rows arguments i n))
unfolding rows
rows-Holds t bytes arguments i zero h = tt
rows-Holds t bytes arguments i (suc n) h =
    Holds-append t bytes (row arguments i 0 arguments.size) (rows arguments (i + 1) n)
      (Stored-Holds t bytes (row arguments i 0 arguments.size) (h i (omega arith) (omega arith)))
      (rows-Holds t bytes arguments (i + 1) n (λ k l u. h k (omega arith) (omega arith)))

base-missing : (bytes : ℕ → ℕ) (arguments : Arguments) → run_base bytes arguments ≡ ok 0
unfolding run_base missing_in hash_table_base_create
base-missing bytes arguments =
    let t₀ = init_lists 0 capacity (λ i. []) in
    let (t, run, holds, grows) = add_each-Holds t₀ bytes (indices arguments) in
    ground (arith, run, count_missing-Holds t (strings bytes (indices arguments)) 0 holds)

-- Let a state of the table with mutexes, of either version, be reached by the threads of `main`, and
-- let all these threads have ended. Then `main` finds 0 strings missing in its table, and also after
-- the first phase, without threads, whatever the arguments and the strings in the data are, if memory
-- can be had.
pub run_base-missing :
    (bytes : ℕ → ℕ) (arguments : Arguments) {ver : Version} {s : System}
    → Reach ver arguments.threads (jobs_of bytes arguments) s
    → ((i : ℕ) → i < arguments.threads → s.pc i ≡ idle [])
    → (run_base bytes arguments ≡ ok 0) × (missing_in s.mem.table bytes (indices arguments) ≡ ok 0)
unfolding missing_in
run_base-missing bytes arguments {s = s} r ended = (
  base-missing bytes arguments,
  count_missing-Holds s.mem.table (strings bytes (indices arguments)) 0 (
      rows-Holds s.mem.table bytes arguments 0 arguments.threads
        (λ k l u. no_lost_entry r k (ended k (omega (arith, u))))),
)
