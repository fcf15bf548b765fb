-- ===== src/Wut/Run/Blocking.antt =====
-- wut/src/wut.c: `wut_join` of a thread that has not exited keeps the invariant of a program's steps.
use yep.Common.{
  ℕ, ◌≡◌, ◌≢◌, ◌⊎◌, refl, ◌∙◌, true, false, some, ◌∷◌, arith, ◌==◌, if◌then◌else◌, Bool-cases,
  Option-cases, inl, inr,
}
use yep.Wut.State.{
  Tcb, State, Os, failure, returned, switched, find_tcb, queued, front, swap_context, dequeue,
}
use yep.Wut.Lifecycle.{set_waiter, set_waiting, join_thread, wut_join}
use yep.Wut.Lookup.{map_tcb}
use yep.Wut.Valid.{IsValid}
use yep.Wut.Join.{front-queued}
use yep.Wut.Waiting.{waiting_tcbs}
use yep.Wut.Wait.{Joinable, wut_join-Blocked}
use yep.Wut.Run.{Inv, Keeps}
use yep.Wut.Run.Queue.{Keeps-as, Stops-Keeps, swap_context-Stops}
use yep.Wut.Run.Joining.{join_ended-Keeps}

module _ {s s' : State} {cur id : ℕ} {t : Tcb} (i : Inv s) (j : Joinable s cur id t)
    (valid : IsValid s') (queue : s.queue ≡ cur ∷ s'.queue) (out : queued cur s'.queue ≡ false)
    (found : (k : ℕ)
      → find_tcb k s'.tcbs ≡ (
          if id == k
          then map_tcb (set_waiter cur) (find_tcb k s.tcbs)
          else if cur == k
          then map_tcb (set_waiting id) (find_tcb k s.tcbs)
          else find_tcb k s.tcbs)) where
  still_queued : (q : ℕ) → queued q s'.queue ≡ true → queued q s.queue ≡ true
  still_queued q h = rw queue (unfold queued in ground arith)

  -- What thread `k` was before: it waited for the same thread, unless it is the one that joins.
  before :
      (k : ℕ) (u : Tcb)
      → cur ≢ k
      → find_tcb k s'.tcbs ≡ some u
      → (b : Tcb) × (find_tcb k s.tcbs ≡ some b)
        × (b.has_exited ≡ u.has_exited)
        × (b.waiting_id ≡ u.waiting_id)
  before k u ne h = elim (Option-cases (find_tcb k s.tcbs)) [
    | inl e ↦ absurd (ground (arith, found k))
    | inr (b, e) ↦ elim (Bool-cases (id == k)) [
      | inl same ↦ (b, e, ground (arith, found k), ground (arith, found k))
      | inr other ↦ (b, e, ground (arith, found k), ground (arith, found k))
    ]
  ]

  -- A thread whose waiter is one of the others is found with the same waiter.
  after :
      (k q : ℕ) (b : Tcb)
      → find_tcb k s.tcbs ≡ some b
      → b.waiter_id ≡ some q
      → (u : Tcb) × (find_tcb k s'.tcbs ≡ some u)
        × (u.waiter_id ≡ some q)
        × (u.has_exited ≡ b.has_exited)
  after k q b g w = elim (Bool-cases (id == k)) [
    | inl same ↦ absurd (ground (arith, j.known, j.unwaited))
    | inr other ↦ elim (Bool-cases (cur == k)) [
      | inl c ↦ (set_waiting id b, ground (arith, found k), w, refl)
      | inr c ↦ (b, ground (arith, found k), w, refl)
    ]
  ]

  blocked-Inv : Inv s'
  blocked-Inv = record {
    valid = valid;
    awaits = λ q k u h x y. elim (Bool-cases (cur == q)) [
      | inl c ↦ (
        set_waiter cur t,
        ground (arith, found id, j.known, target q k u (ground arith) h y),
        ground arith,
        λ r. absurd (ground (arith, out)),
      )
      | inr c ↦
          let (b, f, exits, waits) = before q u (ground arith) h in
          let (a, g, w, ready) = i.awaits q k b f (exits ∙ x) (waits ∙ y) in
          let (z, l, wz, same) = after k q a g w in (z, l, wz, λ r. same ∙ ready (still_queued q r))
    ];
  }
    where
      target :
          (q k : ℕ) (u : Tcb)
          → cur ≡ q
          → find_tcb q s'.tcbs ≡ some u
          → u.waiting_id ≡ some k
          → id ≡ k
      target q k u e h y = elim (Option-cases (find_tcb q s.tcbs)) [
        | inl f ↦ absurd (ground (arith, found q, j.other))
        | inr (b, f) ↦ ground (arith, found q, j.other)
      ]

join_alive-Keeps :
    (os : Os) (cur id : ℕ) (t : Tcb) (s : State)
    → Inv s
    → front s.queue ≡ some cur
    → Joinable s cur id t
    → t.has_exited ≡ false
    → Keeps (wut_join os id s)
join_alive-Keeps os cur id t s i f j x = elim (Bool-cases os.switches) [
  | inl m ↦
      let (s', run, valid, queue, (ne, out, b), found) =
        wut_join-Blocked s i.valid cur id t f j os m x in
      Keeps-as (wut_join os id s) (switched s') run (blocked-Inv i j valid queue out found)
  | inr m ↦
      let (c, g, alive) = i.valid.ready cur (front-queued s.queue f) in
      let next : State = record {
        queue = dequeue cur s.queue;
        tcbs = waiting_tcbs cur id s.tcbs;
      } in
      let run : wut_join os id s ≡ swap_context os cur next =
        unfold wut_join join_thread waiting_tcbs in
        ground (arith, f, g, j.known, j.other, j.unwaited, j.ready, x) in
      Keeps-as (wut_join os id s) (swap_context os cur next) run
        (Stops-Keeps (swap_context os cur next) (swap_context-Stops os cur next m))
]

-- The checks of `wut_join`: it fails, or the thread may be joined.
join-cases :
    (os : Os) (id cur : ℕ) (s : State)
    → front s.queue ≡ some cur
    → (wut_join os id s ≡ returned failure s) ⊎ ((t : Tcb) × Joinable s cur id t)
unfolding wut_join
join-cases os id cur s f = elim (Option-cases (find_tcb id s.tcbs)) [
  | inl k ↦ inl (ground (arith, k))
  | inr (t, k) ↦ elim (Bool-cases (id == cur)) [
    | inl e ↦ inl (ground (arith, f, k, e))
    | inr e ↦ elim (Option-cases t.waiter_id) [
      | inr (w, u) ↦ inl (ground (arith, f, k, e, u))
      | inl u ↦ elim (Bool-cases (queued id s.queue)) [
        | inl r ↦ inr (t, record { known = k; other = ground arith; unwaited = u; ready = inl r })
        | inr r ↦ elim (Bool-cases t.has_exited) [
          | inl x ↦ inr (t, record { known = k; other = ground arith; unwaited = u; ready = inr x })
          | inr x ↦ inl (ground (arith, f, k, e, u, r, x))
        ]
      ]
    ]
  ]
]

pub wut_join-Keeps :
    (os : Os) (id cur : ℕ) (s : State) → Inv s → front s.queue ≡ some cur → Keeps (wut_join os id s)
wut_join-Keeps os id cur s i f = elim (join-cases os id cur s f) [
  | inl e ↦ Keeps-as (wut_join os id s) (returned failure s) e i
  | inr (t, j) ↦ elim (Bool-cases t.has_exited) [
    | inl x ↦ join_ended-Keeps os cur id t s i f j x
    | inr x ↦ join_alive-Keeps os cur id t s i f j x
  ]
]
