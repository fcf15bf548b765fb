-- ===== src/Pht/Progress.antt =====
-- The locked tables of pht/src under threads: version 2 always completes, version 1 can stop.
use yep.Common.{
  ℕ, ◌<◌, ◌≡◌, ◌≢◌, refl, none, some, List, [], ◌∷◌, arith, ◌==◌, Bool-cases, Option-cases, inl,
  inr,
}
use yep.Pht.Hash.{index_of}
use yep.Pht.Chain.{assign_value}
use yep.Pht.Machine.{
  v1, v2, Job, Shared, Pc, idle, locked, found, set_owner, set_list, list_of, Move, lock, hit, miss,
  update, link, publish, unlock, System, set_pc, Step, pick, Reach, start, later,
}
use yep.Pht.Invariant.{holding, Inv, Reach-Inv}
use yep.Pht.Safety.{inside}

-- Whoever owns a mutex is between the lock and the unlock for it, as where every branch unlocks.
record Owned (n : ℕ) (m : Shared) (pc : ℕ → Pc) (l i : ℕ) : Type 0 where
  below : i < n
  job : Job
  holds : holding (pc i) ≡ some job
  mutex : index_of job.key ≡ l

abbrev AllOwned : ℕ → System → Type 0
AllOwned n s = (l i : ℕ) → s.mem.owner l ≡ some i → Owned n s.mem s.pc l i

module _ {n : ℕ} {s : System} (inv : Inv v2 s.mem s.pc) (all : AllOwned n s) (i : ℕ)
    (lt : i < n) where
  -- A step that keeps the owners and the mover's job.
  Owned-same :
      (m : Shared) (p : Pc) (l j : ℕ)
      → holding p ≡ holding (s.pc i)
      → s.mem.owner l ≡ some j
      → Owned n m (set_pc s.pc i p) l j
  Owned-same m p l j same h =
      let o = all l j h in
      record {
        below = o.below;
        job = o.job;
        holds = ground (arith, o.holds, same);
        mutex = o.mutex;
      }

  Move-AllOwned :
      {p p' : Pc} {m' : Shared}
      → Move v2 i s.mem p m' p'
      → s.pc i ≡ p
      → AllOwned n (record { mem = m'; pc = set_pc s.pc i p' })
  Move-AllOwned (lock {job = a} {js = js} g) e l j h = elim (Bool-cases (index_of a.key == l)) [
    | inl mine ↦ record {
      below = ground (arith, lt);
      job = a;
      holds = ground arith;
      mutex = ground arith;
    }
    | inr other ↦
        let o = all l j (ground arith) in
        record { below = o.below; job = o.job; holds = ground (arith, o.holds); mutex = o.mutex }
  ]
  Move-AllOwned (hit g) e l j h = Owned-same _ _ l j (ground arith) h
  Move-AllOwned (miss g) e l j h = Owned-same _ _ l j (ground arith) h
  Move-AllOwned update e l j h = Owned-same _ _ l j (ground arith) h
  Move-AllOwned link e l j h = Owned-same _ _ l j (ground arith) h
  Move-AllOwned publish e l j h = Owned-same _ _ l j (ground arith) h
  Move-AllOwned (unlock {job = a}) e l j h =
      let o = all l j (ground arith) in
      record {
        below = o.below;
        job = o.job;
        holds = ground (arith, o.holds, o.mutex);
        mutex = o.mutex;
      }

Reach-AllOwned : {n : ℕ} {jobs : ℕ → List Job} {s : System} → Reach v2 n jobs s → AllOwned n s
Reach-AllOwned start l i h = absurd (ground arith)
Reach-AllOwned (later r (pick i lt mv)) l j h =
    Move-AllOwned (Reach-Inv r) (Reach-AllOwned r) i lt mv refl l j h

-- With a mutex for each bucket there is no deadlock: in every reachable state in which some thread
-- has not ended its loop, some thread can step.
pub v2_no_deadlock :
    {n : ℕ} {jobs : ℕ → List Job} {s : System}
    → Reach v2 n jobs s
    → (i : ℕ) → i < n
    → s.pc i ≢ idle []
    → (t : System) × Step v2 n s t
v2_no_deadlock {n} {s = s} r i lt busy = go (s.pc i) refl
  where
    go : (p : Pc) → s.pc i ≡ p → (t : System) × Step v2 n s t
    go (idle []) e = absurd (busy e)
    go (idle (job ∷ js)) e = elim (Option-cases (s.mem.owner (index_of job.key))) [
      | inl free ↦ (
        record {
          mem = set_owner s.mem (index_of job.key) (some i);
          pc = set_pc s.pc i (locked job js);
        },
        pick i lt (rw e (lock free)),
      )
      | inr (j, taken) ↦
          let o = Reach-AllOwned r (index_of job.key) j taken in
          let (m', p', mv) = inside v2 j s.mem (s.pc j) (λ h. ground (arith, o.holds)) in
          (_, pick j o.below mv)
    ]
    go p e = let (m', p', mv) = inside v2 i s.mem (s.pc i) (λ h. ground arith) in (_, pick i lt mv)

no_Move :
    {i j : ℕ} {m m' : Shared} {q p : Pc}
    → Move v1 j m q m' p
    → holding q ≡ none
    → m.owner 0 ≡ some i
    → ⊥
no_Move (lock g) h o = ground (arith, g)
no_Move (hit g) h o = ground arith
no_Move (miss g) h o = ground arith
no_Move update h o = ground arith
no_Move link h o = ground arith
no_Move publish h o = ground arith
no_Move unlock h o = ground arith

-- Version 1 stops: in every reachable state in which a thread is about to update an entry that is
-- already in the table, the update leads to a state in which the thread is at the head of its loop
-- and from which no thread can ever step, whatever jobs are left.
pub v1_deadlock :
    {n : ℕ} {jobs : ℕ → List Job} {s : System}
    → Reach v1 n jobs s
    → (i p : ℕ) (job : Job) (js : List Job) → i < n
    → s.pc i ≡ found p job js
    → (t : System) × Step v1 n s t × (t.pc i ≡ idle js) × ((u : System) → ¬ Step v1 n t u)
v1_deadlock {n} {s = s} r i p job js lt e = (t, step, ground arith, λ u st. stuck st)
  where
    t : System
    t = record {
      mem = set_list s.mem job.key (assign_value (list_of s.mem job.key) p job.value);
      pc = set_pc s.pc i (idle js);
    }

    step : Step v1 n s t
    step = pick i lt (rw e update)

    inv : Inv v1 s.mem s.pc
    inv = Reach-Inv r

    held : s.mem.owner 0 ≡ some i
    held = inv.own i job (rw e refl)

    outside : (j : ℕ) → holding (set_pc s.pc i (idle js) j) ≡ none
    outside j = elim (Option-cases (holding (set_pc s.pc i (idle js) j))) [
      | inl f ↦ f
      | inr (b, f) ↦ absurd (ground (arith, held, inv.own j b, f))
    ]

    stuck : {u : System} → Step v1 n t u → ⊥
    stuck (pick j below mv) = no_Move mv (outside j) held
