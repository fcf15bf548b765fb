-- ===== src/Wut/Create.antt =====
-- wut/src/wut.c, `wut_create`: the lowest id that is free, and its place in the two queues.
use yep.Common.{
  ℕ, suc, ◌+◌, ◌≤◌, ◌<◌, ◌≡◌, ◌≢◌, refl, true, false, Option, none, some, List, [], ◌∷◌, ◌++◌,
  arith, ◌==◌, ◌||◌, ltb, if◌then◌else◌, Bool-cases, inl, inr,
}
use yep.Wut.State.{Context, Tcb, State, Os, value, returned, find_tcb, queued, enqueue}
use yep.Wut.Schedule.{lowest_id, insert_tcb, new_tcb, wut_create}
use yep.Wut.Lookup.{From, From-le, find_tcb-below, queued-enqueue, Distinct-enqueue}
use yep.Wut.Valid.{Alive, Blocked, IsValid}

-- The result of the loop, started at `lo`: an id, and the tcb before which it belongs.
record Lowest (lo : ℕ) (ts : List Tcb) (id : ℕ) (entry : Option ℕ) : Type 0 where
  above : lo ≤ id
  free : find_tcb id ts ≡ none
  used : (k : ℕ) → lo ≤ k → k < id → find_tcb k ts ≢ none
  after : (e : ℕ) → entry ≡ some e → id < e
  placed : (t : Tcb) → t.tid ≡ id → From lo (insert_tcb entry t ts)
  found :
      (t : Tcb) (j : ℕ)
      → t.tid ≡ id
      → find_tcb j (insert_tcb entry t ts) ≡ (if id == j then some t else find_tcb j ts)

insert_tcb-skip :
    (entry : Option ℕ) (t u : Tcb) (ts : List Tcb)
    → ((e : ℕ) → entry ≡ some e → u.tid < e)
    → insert_tcb entry t (u ∷ ts) ≡ u ∷ insert_tcb entry t ts
unfolding insert_tcb
insert_tcb-skip none t u ts h = refl
insert_tcb-skip (some e) t u ts h = ground (arith, h e refl)

Lowest-cons :
    (lo : ℕ) (t : Tcb) (ts : List Tcb) (id : ℕ) (entry : Option ℕ)
    → t.tid ≡ lo
    → Lowest (lo + 1) ts id entry
    → Lowest lo (t ∷ ts) id entry
Lowest-cons lo t ts id entry here r = record {
  above = omega (arith, r.above);
  free = unfold find_tcb in ground (arith, r.above, r.free);
  used = λ k h l. unfold find_tcb in ground (arith, r.used k);
  after = r.after;
  placed = λ u h. rw (skip u) (
    omega arith,
    From-le (suc t.tid) (lo + 1) (insert_tcb entry u ts) (omega arith) (r.placed u h),
  );
  found = λ u j h. rw (skip u) (unfold find_tcb in ground (arith, r.above, r.found u j h));
}
  where
    skip : (u : Tcb) → insert_tcb entry u (t ∷ ts) ≡ t ∷ insert_tcb entry u ts
    skip u = insert_tcb-skip entry u t ts (λ e h. omega (arith, r.above, r.after e h))

lowest_id-Lowest :
    (lo : ℕ) (ts : List Tcb) → From lo ts → Lowest lo ts (lowest_id lo ts).0 (lowest_id lo ts).1
unfolding lowest_id
lowest_id-Lowest lo [] s = record {
  above = omega arith;
  free = unfold find_tcb in refl;
  used = λ k h l. absurd (omega arith);
  after = λ e h. ground arith;
  placed = λ t h. unfold insert_tcb in omega arith;
  found = λ t j h. unfold insert_tcb find_tcb in ground arith;
}
lowest_id-Lowest lo (t ∷ ts) s = elim (Bool-cases (ltb lo t.tid)) [
  | inl e ↦ rw e (record {
    above = omega arith;
    free = find_tcb-below lo t.tid (t ∷ ts) (omega arith, s.1) (ground arith);
    used = λ k h l. absurd (omega arith);
    after = λ k h. ground arith;
    placed = λ u h. unfold insert_tcb in ground (arith, s.1);
    found = λ u j h. unfold insert_tcb find_tcb in ground arith;
  })
  | inr e ↦ rw e (
      Lowest-cons lo t ts _ _ (ground (arith, s.0))
        (lowest_id-Lowest (lo + 1) ts (From-le (lo + 1) (suc t.tid) ts (ground (arith, s.0)) s.1)))
]

-- What a created thread changes.
pub record Created (s : State) (id : ℕ) (s' : State) : Type 0 where
  pub free : find_tcb id s.tcbs ≡ none
  pub least : (k : ℕ) → k < id → find_tcb k s.tcbs ≢ none
  pub queue : s'.queue ≡ s.queue ++ id ∷ []
  pub found :
      (j : ℕ) → find_tcb j s'.tcbs ≡ (if id == j then some (new_tcb id) else find_tcb j s.tcbs)
  pub valid : IsValid s'

created : State → State
unfolding new_tcb
created s =
    let r = lowest_id 0 s.tcbs in
    record { queue = enqueue r.0 s.queue; tcbs = insert_tcb r.1 (new_tcb r.0) s.tcbs }

module _ (s : State) (v : IsValid s) where
  abbrev fresh : ℕ
  fresh = (lowest_id 0 s.tcbs).0

  low : Lowest 0 s.tcbs (lowest_id 0 s.tcbs).0 (lowest_id 0 s.tcbs).1
  low = lowest_id-Lowest 0 s.tcbs v.ordered

  created-find_tcb :
      (j : ℕ)
      → find_tcb j (created s).tcbs
        ≡ (if fresh == j then some (new_tcb fresh) else find_tcb j s.tcbs)
  unfolding created
  created-find_tcb j = low.found _ j refl

  created-queued : (j : ℕ) → queued j (created s).queue ≡ (queued j s.queue || fresh == j)
  unfolding created
  created-queued j = queued-enqueue j fresh s.queue

  fresh-queued : queued fresh s.queue ≡ false
  fresh-queued = elim (Bool-cases (queued fresh s.queue)) [
    | inl e ↦ absurd (let (t, f, x) = v.ready fresh e in cc (low.free, f))
    | inr e ↦ e
  ]

  created_ready : (q : ℕ) → queued q (created s).queue ≡ true → Alive (created s) q
  unfolding new_tcb
  created_ready q h = elim (Bool-cases (fresh == q)) [
    | inl e ↦ (new_tcb fresh, ground (arith, created-find_tcb q), refl)
    | inr e ↦
        let (t, f, x) = v.ready q (ground (arith, created-queued q)) in
        (t, ground (arith, created-find_tcb q), x)
  ]

  created_runs :
      (q : ℕ) (t : Tcb)
      → find_tcb q (created s).tcbs ≡ some t
      → t.has_exited ≡ false
      → (c : Context) × (t.context ≡ some c)
  unfolding new_tcb
  created_runs q t h x = elim (Bool-cases (fresh == q)) [
    | inl e ↦ (record { has_link = true }, ground (arith, created-find_tcb q))
    | inr e ↦ v.runs q t (ground (arith, created-find_tcb q)) x
  ]

  created_waited :
      (q : ℕ) (t : Tcb) (w : ℕ)
      → find_tcb q (created s).tcbs ≡ some t
      → t.has_exited ≡ false
      → t.waiter_id ≡ some w
      → Blocked (created s) q w
  unfolding new_tcb
  created_waited q t w h x y = elim (Bool-cases (fresh == q)) [
    | inl e ↦ absurd (ground (arith, created-find_tcb q))
    | inr e ↦
        let (ne, nq, (u, f, al, wt)) = v.waited q t w (ground (arith, created-find_tcb q)) x y in
        (
          ne,
          ground (arith, created-queued w, low.free),
          (u, ground (arith, created-find_tcb w, low.free), al, wt),
        )
  ]

  created-IsValid : IsValid (created s)
  created-IsValid = record {
    ordered = unfold created in low.placed _ refl;
    distinct = unfold created in Distinct-enqueue fresh s.queue v.distinct fresh-queued;
    ready = created_ready;
    runs = created_runs;
    waited = created_waited;
  }

  -- In a valid state, if the two allocations succeed, `wut_create` returns the least id that no
  -- thread has; the new thread stands at the back of the ready queue and is found under that id,
  -- every other thread is found as before, and the new state is valid.
  pub wut_create-Created :
      (os : Os)
      → os.allocates ≡ true
      → os.maps ≡ true
      → (id : ℕ) × (s' : State) × (wut_create os s ≡ returned (value id) s') × Created s id s'
  unfolding wut_create created
  wut_create-Created os a m = (
    fresh,
    created s,
    rw (a, m),
    record {
      free = low.free;
      least = λ k h. low.used k (omega arith) h;
      queue = unfold enqueue in refl;
      found = created-find_tcb;
      valid = created-IsValid;
    },
  )
