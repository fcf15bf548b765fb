-- ===== src/Pht/Safety.antt =====
-- The locked tables of pht/src under threads: exclusion, atomic additions, and no lost entries.
use yep.Common.{
  ℕ, ◌≡◌, ◌≢◌, refl, sym, subst, ◌∙◌, ap, Bool, true, false, none, some, List, [], ◌∷◌, ◌++◌, arith,
  ◌==◌, if◌then◌else◌, Bool-cases, Option-cases, inl, inr,
}
use mathlib.Core.List.{append-nil, append_assoc}
use yep.Pht.Hash.{Key}
use yep.Pht.Chain.{
  get_list_entry, lookup, same_key, same_key_iff, same_key_refl, lookup-assign_value,
}
use yep.Pht.Base.{Buckets, view}
use yep.Pht.BaseMap.{is_some}
use yep.Pht.Machine.{
  Version, Job, Shared, Pc, idle, locked, found, absent, linked, leaving, list_of, after_update,
  Move, lock, hit, miss, update, link, publish, unlock, System, pick, Reach, start, later,
}
use yep.Pht.Invariant.{holding, IsFresh, Reach-Inv}

-- In every reachable state of either version, two threads that are between the lock and the unlock
-- for keys with the same mutex are the same thread.
pub mutual_exclusion :
    {ver : Version} {n : ℕ} {jobs : ℕ → List Job} {s : System}
    → Reach ver n jobs s
    → (i j : ℕ) (a b : Job) → holding (s.pc i) ≡ some a
    → holding (s.pc j) ≡ some b
    → ver.lock_of a.key ≡ ver.lock_of b.key
    → i ≡ j
mutual_exclusion r i j a b h k e =
    let inv = Reach-Inv r in ground (arith, inv.own i a h, inv.own j b k)

-- The jobs of a thread that have not changed the table yet.
abbrev pub pending : Pc → List Job
pending (idle js) = js
pending (locked job js) = job ∷ js
pending (found p job js) = job ∷ js
pending (absent job js) = job ∷ js
pending (linked next job js) = job ∷ js
pending (leaving job js) = js

-- One step as the map sees it: nothing, or one whole addition, of the next job of the thread.
pub data Effect (t t' : Buckets) (p p' : Pc) : Type 0 where
  silent : ((k : Key) → view t' k ≡ view t k) → pending p' ≡ pending p → Effect t t' p p'
  commit :
      (job : Job)
      → ((k : Key) → view t' k ≡ (if same_key job.key k then some job.value else view t k))
      → pending p ≡ job ∷ pending p'
      → Effect t t' p p'

pending-after_update : (b : Bool) (a : Job) (js : List Job) → pending (after_update b a js) ≡ js
pending-after_update true a js = refl
pending-after_update false a js = refl

Move-Effect :
    {ver : Version} {i : ℕ} {m m' : Shared} {p p' : Pc}
    → Move ver i m p m' p'
    → IsFresh m p
    → Effect m.table m'.table p p'
unfolding view
Move-Effect (lock g) f = silent (λ k. refl) refl
Move-Effect (hit g) f = silent (λ k. refl) refl
Move-Effect (miss g) f = silent (λ k. refl) refl
Move-Effect {ver} {m = m} (update {p = q} {job = a} {js = js}) f =
    commit a
      (λ k.
        ground
          (arith, lookup-assign_value (list_of m a.key) a.key k q a.value f, same_key_iff a.key k))
      (ap (λ xs. a ∷ xs) (sym (pending-after_update ver.unlocks_update a js)))
Move-Effect link f = silent (λ k. refl) refl
Move-Effect {m = m} (publish {next} {job = a}) f =
    commit a (λ k. unfold lookup in ground (arith, f.1, same_key_iff a.key k)) refl
Move-Effect unlock f = silent (λ k. refl) refl

-- In every reachable state of either version, a step of a thread leaves the map of the table and the
-- thread's pending jobs as they are, or it maps the key of the first pending job to its value,
-- leaves the other keys as they are, and ends the wait of that job alone: an addition takes effect
-- at one step.
pub Move-atomic :
    {ver : Version} {n : ℕ} {jobs : ℕ → List Job} {s : System}
    → Reach ver n jobs s
    → (i : ℕ) {m : Shared} {p : Pc} → Move ver i s.mem (s.pc i) m p
    → Effect s.mem.table m.table (s.pc i) p
Move-atomic r i mv = Move-Effect mv ((Reach-Inv r).fresh i)

-- Every key of the jobs is in the table.
abbrev pub Stored : Buckets → List Job → Type 0
Stored t [] = Unit
Stored t (job ∷ js) = (is_some (view t job.key) ≡ true) × Stored t js

Stored-grows :
    (t t' : Buckets) (js : List Job)
    → ((k : Key) → is_some (view t k) ≡ true → is_some (view t' k) ≡ true)
    → Stored t js
    → Stored t' js
Stored-grows t t' [] grows h = tt
Stored-grows t t' (job ∷ js) grows h = (grows job.key h.0, Stored-grows t t' js grows h.1)

Stored-snoc :
    (t : Buckets) (js : List Job) (job : Job)
    → Stored t js
    → is_some (view t job.key) ≡ true
    → Stored t (js ++ job ∷ [])
Stored-snoc t [] job h e = (e, tt)
Stored-snoc t (j ∷ js) job h e = (h.0, Stored-snoc t js job h.1 e)

Effect-grows :
    {t t' : Buckets} {p p' : Pc}
    → Effect t t' p p'
    → (k : Key) → is_some (view t k) ≡ true
    → is_some (view t' k) ≡ true
Effect-grows (silent same e) k h = ground (arith, same k)
Effect-grows (commit job sets e) k h = ground (arith, sets k)

-- The jobs of a thread are those that are stored and then those that are pending.
abbrev Progress : Buckets → List Job → Pc → Type 0
Progress t js p = (did : List Job) × (js ≡ did ++ pending p) × Stored t did

Progress-mover :
    {t t' : Buckets} {js : List Job} {p p' : Pc}
    → Effect t t' p p'
    → ((k : Key) → is_some (view t k) ≡ true → is_some (view t' k) ≡ true)
    → Progress t js p
    → Progress t' js p'
Progress-mover {t} {t'} (silent same e) grows (did, split, stored) =
    (did, split ∙ ap (λ xs. did ++ xs) (sym e), Stored-grows t t' did grows stored)
Progress-mover {t} {t'} {p' = p'} (commit job sets e) grows (did, split, stored) = (
  did ++ job ∷ [],
  split ∙ ap (λ xs. did ++ xs) e ∙ sym (append_assoc did (job ∷ []) (pending p')),
  Stored-snoc t' did job (Stored-grows t t' did grows stored)
      (ground (arith, sets job.key, same_key_refl job.key)),
)

Reach-Progress :
    {ver : Version} {n : ℕ} {jobs : ℕ → List Job} {s : System}
    → Reach ver n jobs s
    → (j : ℕ) → Progress s.mem.table (jobs j) (s.pc j)
Reach-Progress start j = ([], refl, tt)
Reach-Progress {jobs = jobs} (later {s} r (pick i {m} {p} lt mv)) j = elim (Bool-cases (i == j)) [
  | inl e ↦
      let eff = Move-atomic r i mv in
      rw e (
        subst (λ x. Progress m.table (jobs x) p) (ground arith)
          (Progress-mover eff (Effect-grows eff) (Reach-Progress r i)))
  | inr e ↦
      let (did, split, stored) = Reach-Progress r j in
      rw e (
        did,
        split,
        Stored-grows s.mem.table m.table did (Effect-grows (Move-atomic r i mv)) stored,
      )
]

-- No entry is lost: in every reachable state of either version in which a thread has ended its loop,
-- the table contains the key of every job of the thread.
pub no_lost_entry :
    {ver : Version} {n : ℕ} {jobs : ℕ → List Job} {s : System}
    → Reach ver n jobs s
    → (j : ℕ) → s.pc j ≡ idle []
    → Stored s.mem.table (jobs j)
no_lost_entry {s = s} r j e =
    let (did, split, stored) = Reach-Progress r j in
    rw (split ∙ ap (λ p. did ++ pending p) e ∙ append-nil did) stored

-- A thread that is not at the head of its loop can step, whatever the others do.
pub inside :
    (ver : Version) (i : ℕ) (m : Shared) (p : Pc)
    → holding p ≢ none
    → (m' : Shared) × (p' : Pc) × Move ver i m p m' p'
inside ver i m (idle js) h = absurd (h refl)
inside ver i m (locked job js) h =
    elim (Option-cases (get_list_entry (list_of m job.key) job.key)) [
      | inl e ↦ (_, _, miss e)
      | inr (p, e) ↦ (_, _, hit e)
    ]
inside ver i m (found p job js) h = (_, _, update)
inside ver i m (absent job js) h = (_, _, link)
inside ver i m (linked next job js) h = (_, _, publish)
inside ver i m (leaving job js) h = (_, _, unlock)
