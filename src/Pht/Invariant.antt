-- ===== src/Pht/Invariant.antt =====
-- What holds in every state of the threads over a locked table, and is kept by every step.
use yep.Common.{
  ℕ, ◌≡◌, ◌≢◌, refl, ◌∙◌, Bool, true, false, Option, none, some, List, arith, ◌==◌, Bool-cases, inl,
  inr,
}
use yep.Pht.Hash.{index_of}
use yep.Pht.Chain.{Entry, get_list_entry, assign_value, lookup, same_key_refl, lookup-assign_value}
use yep.Pht.Machine.{
  Version, Job, Shared, Pc, idle, locked, found, absent, linked, leaving, set_list, list_of,
  after_update, Move, lock, hit, miss, update, link, publish, unlock, System, set_pc, Step, pick,
  Reach, start, later,
}

-- The job for which a thread is between the lock and the unlock.
abbrev pub holding : Pc → Option Job
holding (idle js) = none
holding (locked job js) = some job
holding (found p job js) = some job
holding (absent job js) = some job
holding (linked next job js) = some job
holding (leaving job js) = some job

-- What the locals of a thread say of the list of its key.
abbrev pub IsFresh : Shared → Pc → Type 0
IsFresh m (idle js) = Unit
IsFresh m (locked job js) = Unit
IsFresh m (found p job js) = get_list_entry (list_of m job.key) job.key ≡ some p
IsFresh m (absent job js) = get_list_entry (list_of m job.key) job.key ≡ none
IsFresh m (linked next job js) = (get_list_entry next job.key ≡ none) × (list_of m job.key ≡ next)
IsFresh m (leaving job js) = (v : ℕ) × (lookup job.key (list_of m job.key) ≡ some v)

pub record Inv (ver : Version) (m : Shared) (pc : ℕ → Pc) : Type 0 where
  pub own : (i : ℕ) (job : Job) → holding (pc i) ≡ some job → m.owner (ver.lock_of job.key) ≡ some i
  pub fresh : (i : ℕ) → IsFresh m (pc i)

after_holding :
    (b : Bool) (a : Job) (js : List Job) {job : Job}
    → holding (after_update b a js) ≡ some job
    → a ≡ job
after_holding true a js h = ground arith
after_holding false a js h = ground arith

module _ {ver : Version} {m : Shared} {pc : ℕ → Pc} (inv : Inv ver m pc) (i : ℕ) where
  open inv use {own, fresh}

  Move-own :
      {p p' : Pc} {m' : Shared}
      → Move ver i m p m' p'
      → pc i ≡ p
      → (j : ℕ) (job : Job) → holding (set_pc pc i p' j) ≡ some job
      → m'.owner (ver.lock_of job.key) ≡ some j
  Move-own (lock {job = a} g) e j job h = ground (arith, own j job, g)
  Move-own (hit {job = a} g) e j job h = ground (arith, own j job, own i a)
  Move-own (miss {job = a} g) e j job h = ground (arith, own j job, own i a)
  Move-own (update {job = a} {js = js}) e j job h =
      ground (arith, own j job, own i a, after_holding ver.unlocks_update a js {job = job})
  Move-own (link {job = a}) e j job h = ground (arith, own j job, own i a)
  Move-own (publish {job = a}) e j job h = ground (arith, own j job, own i a)
  Move-own (unlock {job = a}) e j job h = ground (arith, own j job, own i a)

  -- Another thread between lock and unlock has another list.
  apart :
      (a : Job)
      → holding (pc i) ≡ some a
      → (j : ℕ) (b : Job) → i ≢ j
      → holding (pc j) ≡ some b
      → index_of a.key ≢ index_of b.key
  apart a h j b ne k e = ground (arith, own i a h, own j b k, ver.covers a.key b.key e)

  list-apart :
      (a : Job) (es : List Entry)
      → holding (pc i) ≡ some a
      → (j : ℕ) (b : Job) → i ≢ j
      → holding (pc j) ≡ some b
      → list_of (set_list m a.key es) b.key ≡ list_of m b.key
  list-apart a es h j b ne k = ground (arith, apart a h j b ne k)

  -- The locals of thread `j` stay true where its list stays.
  IsFresh-same :
      (m' : Shared) (p : Pc)
      → ((b : Job) → holding p ≡ some b → list_of m' b.key ≡ list_of m b.key)
      → IsFresh m p
      → IsFresh m' p
  IsFresh-same m' (idle js) same f = tt
  IsFresh-same m' (locked job js) same f = tt
  IsFresh-same m' (found p job js) same f = rw (same job refl) f
  IsFresh-same m' (absent job js) same f = rw (same job refl) f
  IsFresh-same m' (linked next job js) same f = (f.0, same job refl ∙ f.1)
  IsFresh-same m' (leaving job js) same f = (f.0, rw (same job refl) f.1)

  found_value :
      (b : Bool) (a : Job) (js : List Job) (q : ℕ)
      → get_list_entry (list_of m a.key) a.key ≡ some q
      → IsFresh (set_list m a.key (assign_value (list_of m a.key) q a.value)) (after_update b a js)
  found_value true a js q h = (
    a.value,
    ground
        (arith, lookup-assign_value (list_of m a.key) a.key a.key q a.value h, same_key_refl a.key),
  )
  found_value false a js q h = tt

  Move-fresh_self : {p p' : Pc} {m' : Shared} → Move ver i m p m' p' → IsFresh m p → IsFresh m' p'
  Move-fresh_self (lock g) f = tt
  Move-fresh_self (hit g) f = g
  Move-fresh_self (miss g) f = g
  Move-fresh_self (update {p = q} {job = a} {js = js}) f = found_value ver.unlocks_update a js q f
  Move-fresh_self link f = (f, refl)
  Move-fresh_self (publish {next} {job = a}) f =
      (a.value, unfold lookup in ground (arith, same_key_refl a.key))
  Move-fresh_self unlock f = tt

  Move-list_other :
      {p p' : Pc} {m' : Shared}
      → Move ver i m p m' p'
      → pc i ≡ p
      → (j : ℕ) (b : Job) → i ≢ j
      → holding (pc j) ≡ some b
      → list_of m' b.key ≡ list_of m b.key
  Move-list_other (lock g) e j b ne k = refl
  Move-list_other (hit g) e j b ne k = refl
  Move-list_other (miss g) e j b ne k = refl
  Move-list_other (update {job = a}) e j b ne k = list-apart a _ (rw e refl) j b ne k
  Move-list_other link e j b ne k = refl
  Move-list_other (publish {job = a}) e j b ne k = list-apart a _ (rw e refl) j b ne k
  Move-list_other unlock e j b ne k = refl

  Move-fresh :
      {p' : Pc} {m' : Shared} → Move ver i m (pc i) m' p' → (j : ℕ) → IsFresh m' (set_pc pc i p' j)
  Move-fresh {p'} {m'} mv j = elim (Bool-cases (i == j)) [
    | inl e ↦ rw e (Move-fresh_self mv (fresh i))
    | inr e ↦ rw e (
        IsFresh-same m' (pc j) (λ b k. Move-list_other mv refl j b (λ q. ground arith) k) (fresh j))
  ]

  pub Move-Inv : {p' : Pc} {m' : Shared} → Move ver i m (pc i) m' p' → Inv ver m' (set_pc pc i p')
  Move-Inv mv = record { own = Move-own mv refl; fresh = Move-fresh mv }

pub Step-Inv :
    {ver : Version} {n : ℕ} {s t : System}
    → Step ver n s t
    → Inv ver s.mem s.pc
    → Inv ver t.mem t.pc
Step-Inv (pick i lt mv) inv = Move-Inv inv i mv

pub Reach-Inv :
    {ver : Version} {n : ℕ} {jobs : ℕ → List Job} {s : System}
    → Reach ver n jobs s
    → Inv ver s.mem s.pc
Reach-Inv start = record { own = λ i job h. ground arith; fresh = λ i. tt }
Reach-Inv (later r st) = Step-Inv st (Reach-Inv r)
