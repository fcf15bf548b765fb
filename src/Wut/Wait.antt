-- ===== src/Wut/Wait.antt =====
-- wut/src/wut.c, `wut_join`: the checks, and the wait for a thread that has not exited.
use yep.Common.{
  Option, ◌∙◌, ℕ, ◌≡◌, ◌≢◌, ◌⊎◌, refl, sym, subst, true, false, none, some, List, [], ◌∷◌, arith,
  ◌==◌, if◌then◌else◌, inl, inr,
}
use yep.Wut.State.{
  Context, Tcb, State, Os, value, returned, switched, find_tcb, queued, dequeue, front, set_context,
  swap_context,
}
use yep.Wut.Lifecycle.{clear_waiting, set_waiter, set_waiting, join_thread, wut_join}
use yep.Wut.Lookup.{Distinct, map_tcb}
use yep.Wut.Valid.{Blocked, IsValid}
use yep.Wut.Exit.{set_context-switched}
use yep.Wut.Join.{front-queued, Reaped, join_resume-Reaped}
use yep.Wut.Waiting.{waiting-IsValid, waiting_tcbs, find_tcb-waiting}

-- Thread `id` may be joined by thread `cur`: it is another thread, nobody waits for it, and it is in
-- the queue or has exited.
pub record Joinable (s : State) (cur id : ℕ) (t : Tcb) : Type 0 where
  pub known : find_tcb id s.tcbs ≡ some t
  pub other : id ≢ cur
  pub unwaited : t.waiter_id ≡ none
  pub ready : (queued id s.queue ≡ true) ⊎ (t.has_exited ≡ true)

second_ready :
    (qs : List ℕ) {cur id : ℕ}
    → front qs ≡ some cur
    → id ≢ cur
    → queued id qs ≡ true
    → (n : ℕ) × (more : List ℕ) × (qs ≡ cur ∷ n ∷ more)
unfolding front queued
second_ready [] f ne h = absurd (ground arith)
second_ready (q ∷ []) f ne h = absurd (ground arith)
second_ready (q ∷ n ∷ more) f ne h = (n, more, ground arith)

module _ (s : State) (v : IsValid s) (cur id : ℕ) (t : Tcb) (running : front s.queue ≡ some cur)
    (j : Joinable s cur id t) where
  cur_queued : queued cur s.queue ≡ true
  cur_queued = front-queued s.queue running

  -- In a valid state in which thread `id` may be joined and has exited, where `munmap` succeeds,
  -- `wut_join` returns its status at once and removes the thread, so that no thread has its id; the
  -- running thread waits for nobody, the others and the queue are as before, and the new state is
  -- valid.
  pub wut_join-Reaped :
      (os : Os)
      → os.unmaps ≡ true
      → t.has_exited ≡ true
      → (s' : State) × (wut_join os id s ≡ returned (value t.status) s') × Reaped s cur id s'
  unfolding wut_join join_thread
  wut_join-Reaped os m x =
      let s₁ : State = record s { tcbs = waiting_tcbs cur id s.tcbs } in
      let v₁ =
        waiting-IsValid s v cur id j.other cur_queued s.queue v.distinct (λ k h. h) t j.known
          (inl x) in
      let (s', run, r) =
        join_resume-Reaped s₁ v₁ cur id running (set_waiter cur t)
          (ground (arith, find_tcb-waiting s v cur id j.other cur_queued id, j.known)) x os m in
      let (c, f, y) = v.ready cur cur_queued in
      (
        s',
        unfold waiting_tcbs in ground (arith, running, j.known, j.other, j.unwaited, f, run),
        record {
          valid = r.valid;
          queue = r.queue;
          found = λ k.
              r.found k
              ∙ ground (
                arith,
                find_tcb-waiting s v cur id j.other cur_queued k,
                set_clear (find_tcb k s.tcbs),
              );
        },
      )
    where
      set_clear :
          (o : Option Tcb)
          → map_tcb clear_waiting (map_tcb (set_waiting id) o) ≡ map_tcb clear_waiting o
      set_clear none = refl
      set_clear (some u) = refl

  ready_queued : {u : Tcb} → Joinable s cur id u → u.has_exited ≡ false → queued id s.queue ≡ true
  ready_queued k x = ground (arith, k.ready)

  tail_queued :
      {qs : List ℕ} → s.queue ≡ cur ∷ qs → (k : ℕ) → queued k qs ≡ true → queued k s.queue ≡ true
  unfolding queued
  tail_queued e k h = rw e (ground arith)

  dequeue_front : {qs : List ℕ} → s.queue ≡ cur ∷ qs → dequeue cur s.queue ≡ qs
  unfolding dequeue
  dequeue_front e = rw e (ground arith)

  join_thread-switched :
      (os : Os)
      → t.has_exited ≡ false
      → (n : ℕ) (more : List ℕ) → s.queue ≡ cur ∷ n ∷ more
      → (c : Tcb) (k : Context) → find_tcb cur s.tcbs ≡ some c
      → c.context ≡ some k
      → (let s₂ : State = record { queue = n ∷ more; tcbs = waiting_tcbs cur id s.tcbs } in
          set_context os s₂ ≡ switched s₂)
      → join_thread os cur id t s
        ≡ switched (record { queue = n ∷ more; tcbs = waiting_tcbs cur id s.tcbs })
  unfolding join_thread swap_context waiting_tcbs
  join_thread-switched os x n more e c k f g next =
      ground (arith, find_tcb-waiting s v cur id j.other cur_queued cur, dequeue_front e, next)

  -- In a valid state in which thread `id` may be joined and has not exited, `wut_join` takes the
  -- running thread off the queue, where it stands in front, and switches to the next thread; the
  -- running thread is blocked on thread `id`, whose `waiter_id` is now the running thread; no other
  -- field of a tcb has changed but the `waiting_id` of the running thread, and the new state is valid.
  pub wut_join-Blocked :
      (os : Os)
      → os.switches ≡ true
      → t.has_exited ≡ false
      → (s' : State) × (wut_join os id s ≡ switched s')
        × IsValid s'
        × (s.queue ≡ cur ∷ s'.queue)
        × Blocked s' id cur
        × ((k : ℕ)
            → find_tcb k s'.tcbs ≡ (
                if id == k
                then map_tcb (λ u. record u { waiter_id = some cur }) (find_tcb k s.tcbs)
                else if cur == k
                then map_tcb (λ u. record u { waiting_id = some id }) (find_tcb k s.tcbs)
                else find_tcb k s.tcbs))
  unfolding wut_join
  wut_join-Blocked os m x =
      let at_id = ready_queued j x in
      let (n, more, e) = second_ready s.queue running j.other at_id in
      let d = subst Distinct e v.distinct in
      let v₂ =
        waiting-IsValid s v cur id j.other cur_queued (n ∷ more) d.1 (tail_queued e) t j.known
          (inr d.0) in
      let s₂ : State = record { queue = n ∷ more; tcbs = waiting_tcbs cur id s.tcbs } in
      let looks = find_tcb-waiting s v cur id j.other cur_queued in
      let (c, f, y) = v.ready cur cur_queued in
      let (k, g) = v.runs cur c f y in
      (
        s₂,
        ground (
          arith,
          running,
          j.known,
          j.other,
          j.unwaited,
          at_id,
          join_thread-switched os x n more e c k f g (set_context-switched os s₂ n more v₂ refl m),
        ),
        v₂,
        e,
        (λ i. j.other (sym i), d.0, (set_waiting id c, ground (arith, looks cur, f), y, refl)),
        looks,
      )
