-- ===== src/Wut/Unlink.antt =====
-- wut/src/wut.c, `wut_cancel`: the thread control blocks and the queue once a thread is cancelled.
use yep.Common.{
  ℕ, ◌≡◌, ◌≢◌, refl, sym, ◌∙◌, true, false, Option, none, some, List, arith, ◌==◌, if◌then◌else◌,
  Bool-cases, Option-cases, inl, inr,
}
use yep.Wut.State.{Tcb, State, find_tcb, modify_tcb, queued, dequeue}
use yep.Wut.Lifecycle.{mark_exited, clear_waiter, clear_waiting, mark_cancelled, unwait}
use yep.Wut.Lookup.{
  From, map_tcb, find_tcb-modify_tcb, From-modify_tcb, queued-dequeue, Distinct-dequeue,
  dequeue-absent,
}
use yep.Wut.Valid.{IsValid}
use yep.Wut.Depart.{woken, Same, Stopped}

find_tcb-unwait :
    (j id : ℕ) (o : Option ℕ) (ts : List Tcb)
    → id ≢ j
    → find_tcb j (unwait id o ts)
      ≡ (if woken o j then map_tcb clear_waiter (find_tcb j ts) else find_tcb j ts)
unfolding unwait
find_tcb-unwait j id none ts h = refl
find_tcb-unwait j id (some w) ts h = ground (
  arith,
  find_tcb-modify_tcb j w clear_waiter (modify_tcb id clear_waiting ts) (λ t. refl),
  find_tcb-modify_tcb j id clear_waiting ts (λ t. refl),
)

unwait_self :
    (id : ℕ) (o : Option ℕ) (ts : List Tcb) (t : Tcb)
    → find_tcb id ts ≡ some t
    → (u : Tcb) × (find_tcb id (unwait id o ts) ≡ some u) × (u.has_exited ≡ t.has_exited)
unfolding unwait
unwait_self id none ts t h = (t, h, refl)
unwait_self id (some w) ts t h = elim (Option-cases (find_tcb w ts)) [
  | inl e ↦ rw (e, unwait) (t, h, refl)
  | inr (v, e) ↦
      rw (e, unwait)
        (elim (Bool-cases (w == id)) [
          | inl same ↦ (clear_waiter (clear_waiting t), ground (arith, first, second), refl)
          | inr other ↦ (clear_waiting t, ground (arith, first, second), refl)
        ])
]
  where
    first :
        find_tcb id (modify_tcb id clear_waiting ts)
        ≡ (if id == id then map_tcb clear_waiting (find_tcb id ts) else find_tcb id ts)
    first = find_tcb-modify_tcb id id clear_waiting ts (λ t. refl)

    second : find_tcb id (modify_tcb w clear_waiter (modify_tcb id clear_waiting ts)) ≡ (
        if w == id
        then map_tcb clear_waiter (find_tcb id (modify_tcb id clear_waiting ts))
        else find_tcb id (modify_tcb id clear_waiting ts))
    second = find_tcb-modify_tcb id w clear_waiter (modify_tcb id clear_waiting ts) (λ t. refl)

From-unwait : (lo id : ℕ) (o : Option ℕ) (ts : List Tcb) → From lo ts → From lo (unwait id o ts)
unfolding unwait
From-unwait lo id none ts s = s
From-unwait lo id (some w) ts s = elim (Option-cases (find_tcb w ts)) [
  | inl e ↦ rw (e, unwait) s
  | inr (t, e) ↦
      rw (e, unwait)
        (From-modify_tcb lo w clear_waiter _ (λ t. refl)
          (From-modify_tcb lo id clear_waiting ts (λ t. refl) s))
]

-- The tcbs after the cancellation of thread `id`, which was `t`.
unfoldable pub cancelled_tcbs : ℕ → Tcb → List Tcb → List Tcb
cancelled_tcbs id t ts =
    modify_tcb id mark_cancelled (unwait id t.waiting_id (modify_tcb id mark_exited ts))

pub find_tcb-cancelled_other :
    (j id : ℕ) (t : Tcb) (ts : List Tcb)
    → id ≢ j
    → find_tcb j (cancelled_tcbs id t ts)
      ≡ (if woken t.waiting_id j then map_tcb clear_waiter (find_tcb j ts) else find_tcb j ts)
unfolding cancelled_tcbs
find_tcb-cancelled_other j id t ts h = ground (
  arith,
  find_tcb-modify_tcb j id mark_cancelled (unwait id t.waiting_id (modify_tcb id mark_exited ts))
      (λ t. refl),
  find_tcb-unwait j id t.waiting_id (modify_tcb id mark_exited ts) h,
  find_tcb-modify_tcb j id mark_exited ts (λ t. refl),
)

-- A cancelled thread: it has exited with status 128 and has no context.
pub record IsCancelled (u : Tcb) : Type 0 where
  pub exits : u.has_exited ≡ true
  pub status : u.status ≡ 128
  pub context : u.context ≡ none

pub find_tcb-cancelled_self :
    (id : ℕ) (t : Tcb) (ts : List Tcb)
    → find_tcb id ts ≡ some t
    → (u : Tcb) × (find_tcb id (cancelled_tcbs id t ts) ≡ some u) × IsCancelled u
unfolding cancelled_tcbs
find_tcb-cancelled_self id t ts h =
    let (u, f, x) =
      unwait_self id t.waiting_id (modify_tcb id mark_exited ts) (mark_exited t)
        (ground (arith, find_tcb-modify_tcb id id mark_exited ts (λ t. refl))) in
    (
      mark_cancelled u,
      ground (
        arith,
        find_tcb-modify_tcb id id mark_cancelled
            (unwait id t.waiting_id (modify_tcb id mark_exited ts)) (λ t. refl),
      ),
      record { exits = x; status = refl; context = refl },
    )

-- A thread that does not wait for itself keeps its waiter.
unwait-waiter_id :
    (id : ℕ) (o : Option ℕ) (ts : List Tcb) (t u : Tcb)
    → o ≢ some id
    → find_tcb id ts ≡ some t
    → find_tcb id (unwait id o ts) ≡ some u
    → u.waiter_id ≡ t.waiter_id
unfolding unwait
unwait-waiter_id id none ts t u ne f g = ground arith
unwait-waiter_id id (some w) ts t u ne f g = elim (Option-cases (find_tcb w ts)) [
  | inl e ↦ ground arith
  | inr (x, e) ↦ ground (
    arith,
    find_tcb-modify_tcb id w clear_waiter (modify_tcb id clear_waiting ts) (λ t. refl),
    find_tcb-modify_tcb id id clear_waiting ts (λ t. refl),
  )
]

pub cancelled_tcbs-waiter_id :
    (id : ℕ) (t : Tcb) (ts : List Tcb) (u : Tcb)
    → find_tcb id ts ≡ some t
    → t.waiting_id ≢ some id
    → find_tcb id (cancelled_tcbs id t ts) ≡ some u
    → u.waiter_id ≡ t.waiter_id
unfolding cancelled_tcbs
cancelled_tcbs-waiter_id id t ts u f ne g =
    let now : find_tcb id (modify_tcb id mark_exited ts) ≡ some (mark_exited t) =
      ground (arith, find_tcb-modify_tcb id id mark_exited ts (λ t. refl)) in
    let (x, h, y) =
      unwait_self id t.waiting_id (modify_tcb id mark_exited ts) (mark_exited t) now in
    let before =
      unwait-waiter_id id t.waiting_id (modify_tcb id mark_exited ts) (mark_exited t) x ne now h in
    ground (
      arith,
      before,
      h,
      find_tcb-modify_tcb id id mark_cancelled
          (unwait id t.waiting_id (modify_tcb id mark_exited ts)) (λ t. refl),
    )

-- The queue without the thread. The search before the removal makes no difference.
unfoldable pub without : ℕ → List ℕ → List ℕ
without id qs = if queued id qs then dequeue id qs else qs

pub without-dequeue : (id : ℕ) (qs : List ℕ) → without id qs ≡ dequeue id qs
unfolding without
without-dequeue id qs = ground (arith, dequeue-absent id qs)

module _ (s : State) (v : IsValid s) (id : ℕ) (t : Tcb) (known : find_tcb id s.tcbs ≡ some t)
    (alive : t.has_exited ≡ false) where
  cancel-back :
      (j : ℕ) (u' : Tcb)
      → id ≢ j
      → find_tcb j (cancelled_tcbs id t s.tcbs) ≡ some u'
      → (u : Tcb) × (find_tcb j s.tcbs ≡ some u) × Same u u'
  cancel-back j u' ne h = elim (Option-cases (find_tcb j s.tcbs)) [
    | inl e ↦ absurd (ground (arith, find_tcb-cancelled_other j id t s.tcbs ne))
    | inr (u, e) ↦ (u, e, ground (arith, find_tcb-cancelled_other j id t s.tcbs ne))
  ]

  cancel-forth :
      (j : ℕ) (u : Tcb)
      → id ≢ j
      → find_tcb j s.tcbs ≡ some u
      → (u' : Tcb) × (find_tcb j (cancelled_tcbs id t s.tcbs) ≡ some u') × Same u u'
  cancel-forth j u ne h = elim (Bool-cases (woken t.waiting_id j)) [
    | inl e ↦
        (clear_waiter u, ground (arith, find_tcb-cancelled_other j id t s.tcbs ne), ground arith)
    | inr e ↦ (u, ground (arith, find_tcb-cancelled_other j id t s.tcbs ne), ground arith)
  ]

  -- Whom the cancelled thread was waiting for has no waiter now.
  cancel-unwaited :
      (j : ℕ) (u : Tcb)
      → id ≢ j
      → find_tcb j (cancelled_tcbs id t s.tcbs) ≡ some u
      → u.has_exited ≡ false
      → u.waiter_id ≢ some id
  cancel-unwaited j u ne h x y =
      let (u₀, f, same) = cancel-back j u ne h in
      let (nw, nq, (b, g, z, on)) = v.waited j u₀ id f (sym same.exits ∙ x) (same.waiter id y) in
      ground (arith, find_tcb-cancelled_other j id t s.tcbs ne)

  pub cancel-Stopped : Stopped s id t (cancelled_tcbs id t s.tcbs) (without id s.queue)
  cancel-Stopped = record {
    was = known;
    alive = alive;
    ordered =
        unfold cancelled_tcbs in
        From-modify_tcb 0 id mark_cancelled _ (λ t. refl)
          (From-unwait 0 id t.waiting_id _
            (From-modify_tcb 0 id mark_exited s.tcbs (λ t. refl) v.ordered));
    gone =
        λ u h. let (w, f, c) = find_tcb-cancelled_self id t s.tcbs known in ground (arith, c.exits);
    back = cancel-back;
    forth = cancel-forth;
    unwaited = cancel-unwaited;
    distinct = rw without-dequeue (Distinct-dequeue id s.queue v.distinct);
    removed = λ j. rw without-dequeue (queued-dequeue j id s.queue v.distinct);
  }
