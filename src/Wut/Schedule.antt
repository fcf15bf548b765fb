-- ===== src/Wut/Schedule.antt =====
-- wut/src/wut.c: `wut_init`, `wut_id`, `wut_create` and `wut_yield`.
use yep.Common.{
  ℕ, ◌+◌, Bool, true, false, Option, none, some, List, [], ◌∷◌, ◌++◌, ◌==◌, ltb, if◌then◌else◌,
}
use yep.Wut.State.{
  Tcb, State, Os, value, failure, Outcome, returned, died, fault, enqueue, front, swap_context,
}

-- The tcb that the calling thread gets. `link` is what `getcontext` leaves in `uc_link`.
unfoldable pub main_tcb : Bool → Tcb
main_tcb link = record {
  tid = 0;
  context = some (record { has_link = link });
  status = 0;
  init = true;
  waiter_id = none;
  waiting_id = none;
  has_exited = false;
}

unfoldable pub wut_init : Os → Bool → Outcome
unfolding main_tcb
wut_init os link =
    if os.maps
    then returned (value 0) (record { queue = 0 ∷ []; tcbs = main_tcb link ∷ [] })
    else died

-- The running thread's id; on an empty queue `die` ends the process.
unfoldable pub wut_id : State → Option ℕ
unfolding front
wut_id s = front s.queue

-- The loop of `wut_create`: the id that it ends with, and the tcb that it stops at.
unfoldable pub lowest_id : ℕ → List Tcb → ℕ × Option ℕ
lowest_id thread_id [] = (thread_id, none)
lowest_id thread_id (t ∷ ts) =
    if ltb thread_id t.tid then (thread_id, some t.tid) else lowest_id (thread_id + 1) ts

-- `TAILQ_INSERT_BEFORE` of a tcb.
unfoldable pub insert_before : ℕ → Tcb → List Tcb → List Tcb
insert_before id t [] = []
insert_before id t (u ∷ us) = if u.tid == id then t ∷ u ∷ us else u ∷ insert_before id t us

unfoldable pub insert_tcb : Option ℕ → Tcb → List Tcb → List Tcb
unfolding insert_before
insert_tcb none t ts = ts ++ t ∷ []
insert_tcb (some id) t ts = insert_before id t ts

-- A new thread's context links to the cleanup context.
unfoldable pub new_tcb : ℕ → Tcb
new_tcb id = record {
  tid = id;
  context = some (record { has_link = true });
  status = 0;
  init = false;
  waiter_id = none;
  waiting_id = none;
  has_exited = false;
}

unfoldable pub wut_create : Os → State → Outcome
unfolding lowest_id insert_tcb new_tcb enqueue
wut_create os s =
    let (thread_id, entry) = lowest_id 0 s.tcbs in
    if os.allocates
    then (if os.maps
        then returned (value thread_id) (record {
          queue = enqueue thread_id s.queue;
          tcbs = insert_tcb entry (new_tcb thread_id) s.tcbs;
        })
        else died)
    else died

-- The call returns 0 when the thread is in front again. Alone in the queue, the thread has left it
-- when the call fails.
unfoldable pub yield_from : Os → ℕ → List ℕ → List Tcb → Outcome
unfolding enqueue swap_context
yield_from os cur [] ts = returned failure (record { queue = []; tcbs = ts })
yield_from os cur (q ∷ qs) ts =
    swap_context os cur (record { queue = enqueue cur (q ∷ qs); tcbs = ts })

unfoldable pub wut_yield : Os → State → Outcome
unfolding yield_from
wut_yield os s = elim s.queue [ [] ↦ fault | cur ∷ rest ↦ yield_from os cur rest s.tcbs ]
