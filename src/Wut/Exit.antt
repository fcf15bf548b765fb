-- ===== src/Wut/Exit.antt =====
-- wut/src/wut.c, `wut_exit` and `_exit_cleanup`: the running thread ends, by a call or by a return.
use yep.Common.{
  ℕ, ◌%◌, ◌≡◌, ◌≢◌, refl, subst, ◌∙◌, true, false, none, some, List, [], ◌∷◌, ◌++◌, arith, ◌==◌,
  if◌then◌else◌,
}
use yep.Wut.State.{
  Context, Tcb, State, Os, switched, fault, find_tcb, modify_tcb, queued, wake, set_context,
}
use yep.Wut.Lifecycle.{mark_exited, set_status, exit_cleanup, resume_queue, exit_switch, wut_exit}
use yep.Wut.Lookup.{Distinct, map_tcb, find_tcb-modify_tcb, From-modify_tcb}
use yep.Wut.Valid.{IsValid}
use yep.Wut.Depart.{Stopped, depart-IsValid, waiter_list, wake-append}

-- In a valid state the thread in front of the queue can be switched to.
pub set_context-switched :
    (os : Os) (s : State) (q : ℕ) (qs : List ℕ)
    → IsValid s
    → s.queue ≡ q ∷ qs
    → os.switches ≡ true
    → set_context os s ≡ switched s
unfolding set_context
set_context-switched os s q qs v e m =
    let (t, f, x) = v.ready q (rw e (unfold queued in ground arith)) in
    let (c, k) = v.runs q t f x in ground (arith, e, f, k)

-- What the end of thread `id` changes, where `f` is what it does to the tcb.
pub record Ended (s : State) (id : ℕ) (f : Tcb → Tcb) (queue_after : List ℕ) (s' : State)
    : Type 0 where
  pub valid : IsValid s'
  pub queue : s'.queue ≡ queue_after
  pub thread : find_tcb id s'.tcbs ≡ map_tcb f (find_tcb id s.tcbs)
  pub others : (j : ℕ) → id ≢ j → find_tcb j s'.tcbs ≡ find_tcb j s.tcbs

-- A change of one tcb's own fields, which keeps its id.
module _ {s : State} (v : IsValid s) {id : ℕ} {rest : List ℕ} (running : s.queue ≡ id ∷ rest)
    {t : Tcb} (known : find_tcb id s.tcbs ≡ some t) (f : Tcb → Tcb)
    (keeps : (u : Tcb) → (f u).tid ≡ u.tid) (ends : (u : Tcb) → (f u).has_exited ≡ true) where
  found :
      (j : ℕ)
      → find_tcb j (modify_tcb id f s.tcbs)
        ≡ (if id == j then map_tcb f (find_tcb j s.tcbs) else find_tcb j s.tcbs)
  found j = find_tcb-modify_tcb j id f s.tcbs keeps

  queued_here : queued id s.queue ≡ true
  unfolding queued
  queued_here = rw running (ground arith)

  alive : t.has_exited ≡ false
  alive = let (u, g, x) = v.ready id queued_here in ground arith

  rest-Distinct : Distinct (id ∷ rest)
  rest-Distinct = subst Distinct running v.distinct

  exit-Stopped : Stopped s id t (modify_tcb id f s.tcbs) rest
  exit-Stopped = record {
    was = known;
    alive = alive;
    ordered = From-modify_tcb 0 id f s.tcbs keeps v.ordered;
    gone = λ u h. ground (arith, found id, ends t);
    back = λ j u ne h. (u, ground (arith, found j), ground arith);
    forth = λ j u ne h. (u, ground (arith, found j), ground arith);
    unwaited = λ j u ne h x y.
        let (nw, nq, b) = v.waited j u id (ground (arith, found j)) x y in
        ground (arith, queued_here);
    distinct = rest-Distinct.1;
    removed = λ j. unfold queued in rw running (ground (arith, rest-Distinct.0));
  }

  unfoldable pub ended : State
  ended = record {
    queue = wake t.waiter_id (modify_tcb id f s.tcbs) rest;
    tcbs = modify_tcb id f s.tcbs;
  }

  waiter_known : (w : ℕ) → t.waiter_id ≡ some w → find_tcb w (modify_tcb id f s.tcbs) ≢ none
  waiter_known w h =
      let (ne, nq, (u, g, x, on)) = v.waited id t w known alive h in ground (arith, found w)

  ended-queue : ended.queue ≡ rest ++ waiter_list t.waiter_id
  unfolding ended
  ended-queue = wake-append t.waiter_id _ rest waiter_known

  pub ended-Ended : Ended s id f (rest ++ waiter_list t.waiter_id) ended
  unfolding ended
  ended-Ended = record {
    valid = depart-IsValid v exit-Stopped _ waiter_known;
    queue = ended-queue;
    thread = ground (arith, found id);
    others = λ j ne. ground (arith, found j);
  }

module _ {s : State} (v : IsValid s) {id : ℕ} {rest : List ℕ} (running : s.queue ≡ id ∷ rest)
    {t : Tcb} (known : find_tcb id s.tcbs ≡ some t) where
  unfoldable pub exited_state : ℕ → State
  exited_state status = ended v running known (set_status status) (λ u. refl) (λ u. refl)

  pub exited-Ended :
      (status : ℕ)
      → Ended s id (set_status status) (rest ++ waiter_list t.waiter_id) (exited_state status)
  unfolding exited_state
  exited-Ended status = ended-Ended v running known (set_status status) (λ u. refl) (λ u. refl)

  pub wut_exit-exit_switch :
      (os : Os) (status : ℕ) → wut_exit os status s ≡ exit_switch os t (exited_state status)
  unfolding wut_exit exited_state ended
  wut_exit-exit_switch os status = ground (arith, running, known)

  unfoldable pub returned_state : State
  returned_state = ended v running known mark_exited (λ u. refl) (λ u. refl)

  pub returned-Ended : Ended s id mark_exited (rest ++ waiter_list t.waiter_id) returned_state
  unfolding returned_state
  returned-Ended = ended-Ended v running known mark_exited (λ u. refl) (λ u. refl)

  pub exit_cleanup-resume : (os : Os) → exit_cleanup os s ≡ resume_queue os returned_state
  unfolding exit_cleanup returned_state ended
  exit_cleanup-resume os = ground (arith, running, known)

  -- In a valid state whose running thread `id` returns from its function while other threads are
  -- ready or its waiter comes back, `_exit_cleanup` marks the thread as exited and switches to the
  -- next thread of the queue, at whose back the waiter stands. The other threads are as before, and
  -- the new state is valid.
  pub exit_cleanup-Ended :
      (os : Os) (q : ℕ) (qs : List ℕ)
      → os.switches ≡ true
      → rest ++ waiter_list t.waiter_id ≡ q ∷ qs
      → (s' : State) × (exit_cleanup os s ≡ switched s') × Ended s id mark_exited (q ∷ qs) s'
  exit_cleanup-Ended os q qs m e =
      let r = returned-Ended in
      let after : returned_state.queue ≡ q ∷ qs = r.queue ∙ e in
      (
        returned_state,
        exit_cleanup-resume os
            ∙ ground (arith, after, set_context-switched os returned_state q qs r.valid after m),
        rw e at r,
      )

  -- In a valid state, `wut_exit` of a thread whose context links to the cleanup context, while other
  -- threads are ready or its waiter comes back, records the status modulo 256, marks the
  -- thread as exited and switches to the next thread of the queue, at whose back the waiter stands.
  -- The other threads are as before, and the new state is valid.
  pub wut_exit-Ended :
      (os : Os) (status q : ℕ) (qs : List ℕ) (c : Context)
      → os.switches ≡ true
      → t.context ≡ some c
      → c.has_link ≡ true
      → rest ++ waiter_list t.waiter_id ≡ q ∷ qs
      → (s' : State) × (wut_exit os status s ≡ switched s')
        × Ended s id (λ u. record u { status = status % 256; has_exited = true }) (q ∷ qs) s'
  wut_exit-Ended os status q qs c m k l e =
      let r = exited-Ended status in
      let after : (exited_state status).queue ≡ q ∷ qs = r.queue ∙ e in
      (
        exited_state status,
        wut_exit-exit_switch os status
            ∙ unfold exit_switch in
              ground
                (arith, after, set_context-switched os (exited_state status) q qs r.valid after m),
        rw e at r,
      )

  -- In a valid state, `wut_exit` of the only ready thread, with no waiter, takes the thread off the
  -- queue and then runs `_exit_cleanup`, which reads the front of the empty queue: the call ends in
  -- a use of a null pointer.
  pub wut_exit_last :
      (os : Os) (status : ℕ)
      → os.switches ≡ true
      → rest ++ waiter_list t.waiter_id ≡ []
      → wut_exit os status s ≡ fault
  wut_exit_last os status m e =
      let after : (exited_state status).queue ≡ [] = (exited-Ended status).queue ∙ e in
      wut_exit-exit_switch os status ∙ unfold exit_switch exit_cleanup in ground (arith, after)
