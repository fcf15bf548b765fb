-- ===== src/Wut/Cancel.antt =====
-- wut/src/wut.c, `wut_cancel`: when it refuses, and what it does to the thread and its waiter.
use yep.Common.{
  ℕ, ◌≡◌, ◌≢◌, ◌↔◌, ◌⊎◌, refl, ◌∙◌, true, false, none, some, ◌++◌, ap, arith, ◌==◌, if◌then◌else◌,
  Bool-cases, Option-cases, inl, inr,
}
use yep.Wut.State.{
  Tcb, State, Os, value, failure, returned, find_tcb, modify_tcb, queued, dequeue, front, wake,
}
use yep.Wut.Lifecycle.{mark_exited, clear_waiter, cancel_thread, wut_cancel}
use yep.Wut.Lookup.{map_tcb, find_tcb-modify_tcb, queued-dequeue}
use yep.Wut.Valid.{Alive, IsValid}
use yep.Wut.Depart.{woken, woken-eq, queued-wake, depart-IsValid, waiter_list, wake-append}
use yep.Wut.Unlink.{
  cancelled_tcbs-waiter_id, cancelled_tcbs, find_tcb-cancelled_other, find_tcb-cancelled_self,
  without, without-dequeue, cancel-Stopped, IsCancelled,
}

-- What a cancellation changes: the thread, the queue, and the waiter of the thread that it waited
-- for.
pub record Cancelled (s : State) (id : ℕ) (t : Tcb) (s' : State) : Type 0 where
  pub valid : IsValid s'
  pub thread : (u : Tcb) × (find_tcb id s'.tcbs ≡ some u) × IsCancelled u
  pub queue : s'.queue ≡ dequeue id s.queue ++ waiter_list t.waiter_id
  pub unqueued : queued id s'.queue ≡ false
  pub waiter :
      (u : Tcb) → find_tcb id s'.tcbs ≡ some u → t.waiting_id ≢ some id → u.waiter_id ≡ t.waiter_id
  pub others :
      (j : ℕ)
      → id ≢ j
      → find_tcb j s'.tcbs ≡ (
          if woken t.waiting_id j
          then map_tcb clear_waiter (find_tcb j s.tcbs)
          else find_tcb j s.tcbs)

module _ (s : State) (v : IsValid s) (id : ℕ) (t : Tcb) (known : find_tcb id s.tcbs ≡ some t)
    (alive : t.has_exited ≡ false) where
  cancelled : State
  cancelled = record {
    queue = wake t.waiter_id (modify_tcb id mark_exited s.tcbs) (without id s.queue);
    tcbs = cancelled_tcbs id t s.tcbs;
  }

  waiter_known :
      (w : ℕ) → t.waiter_id ≡ some w → find_tcb w (modify_tcb id mark_exited s.tcbs) ≢ none
  waiter_known w h =
      let (ne, nq, (u, f, x, on)) = v.waited id t w known alive h in
      ground (arith, find_tcb-modify_tcb w id mark_exited s.tcbs (λ t. refl))

  cancelled-Cancelled : Cancelled s id t cancelled
  unfolding cancelled
  cancelled-Cancelled = record {
    valid = depart-IsValid v (cancel-Stopped s v id t known alive) _ waiter_known;
    thread = find_tcb-cancelled_self id t s.tcbs known;
    queue =
        wake-append t.waiter_id _ (without id s.queue) waiter_known
        ∙ ap (λ qs. qs ++ waiter_list t.waiter_id) (without-dequeue id s.queue);
    unqueued = elim (Bool-cases (woken t.waiter_id id)) [
      | inl self ↦ absurd ((v.waited id t id known alive (woken-eq t.waiter_id id self)).0 refl)
      | inr other ↦ rw (without-dequeue) (
          ground (
            arith,
            queued-wake t.waiter_id _ (dequeue id s.queue) id waiter_known,
            queued-dequeue id id s.queue v.distinct,
          ))
    ];
    waiter = λ u f ne. cancelled_tcbs-waiter_id id t s.tcbs u known ne f;
    others = λ j ne. find_tcb-cancelled_other j id t s.tcbs ne;
  }

  cancel_thread-cancelled :
      (os : Os) → os.unmaps ≡ true → cancel_thread os id t s ≡ returned (value 0) cancelled
  unfolding cancel_thread cancelled cancelled_tcbs without
  cancel_thread-cancelled os m = let (c, k) = v.runs id t known alive in ground (arith, k)

  -- In a valid state, where `munmap` succeeds, `wut_cancel` of a thread that is alive and not the
  -- running one returns 0. The thread has exited with status 128 and without a context and is not
  -- in the queue, whose order is else the same, with the thread's waiter at its back; unless it
  -- waits for itself it keeps its waiter's id. A thread that the cancelled one waited for has no
  -- waiter, every other thread is as before, and the state is valid.
  pub wut_cancel-Cancelled :
      (os : Os) (cur : ℕ)
      → os.unmaps ≡ true
      → front s.queue ≡ some cur
      → id ≢ cur
      → (s' : State) × (wut_cancel os id s ≡ returned (value 0) s') × Cancelled s id t s'
  unfolding wut_cancel
  wut_cancel-Cancelled os cur m h ne =
      (cancelled, ground (arith, cancel_thread-cancelled os m), cancelled-Cancelled)

cancel_thread-ne-failure :
    (os : Os) (id : ℕ) (t : Tcb) (s : State) → cancel_thread os id t s ≢ returned failure s
unfolding cancel_thread
cancel_thread-ne-failure os id t s = ground arith

-- While some thread `cur` is running, `wut_cancel` returns -1 and changes nothing exactly when the
-- id is that of the running thread or of no thread that is alive.
pub wut_cancel_refuses :
    (os : Os) (id cur : ℕ) (s : State)
    → front s.queue ≡ some cur
    → (wut_cancel os id s ≡ returned failure s) ↔ ((id ≡ cur) ⊎ ¬ Alive s id)
unfolding wut_cancel
wut_cancel_refuses os id cur s h = (refused, refuses)
  where
    refused : wut_cancel os id s ≡ returned failure s → (id ≡ cur) ⊎ ¬ Alive s id
    refused e = elim (Bool-cases (id == cur)) [
      | inl same ↦ inl (ground arith)
      | inr other ↦
          inr (λ a. let (t, f, x) = a in ground (arith, cancel_thread-ne-failure os id t s))
    ]

    refuses : (id ≡ cur) ⊎ ¬ Alive s id → wut_cancel os id s ≡ returned failure s
    refuses (inl same) = ground arith
    refuses (inr dead) = elim (Option-cases (find_tcb id s.tcbs)) [
      | inl e ↦ ground arith
      | inr (t, e) ↦ elim (Bool-cases t.has_exited) [
        | inl x ↦ ground arith
        | inr x ↦ absurd (dead (t, e, x))
      ]
    ]
