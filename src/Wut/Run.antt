-- ===== src/Wut/Run.antt =====
-- wut/src/wut.c: a program that uses the library, as the steps from call to call.
pub mod Queue
pub mod Leaving
pub mod Cancelling
pub mod Joining
pub mod Blocking
pub mod Reachable
mod Tests
use yep.Common.{ℕ, ◌≡◌, Bool, true, false, none, some}
use yep.Wut.State.{
  Tcb, State, Os, Reply, Outcome, value, returned, switched, died, exited, fault, find_tcb, queued,
  front,
}
use yep.Wut.Schedule.{wut_init, wut_create, wut_yield}
use yep.Wut.Lifecycle.{wut_cancel, wut_join, wut_exit, exit_cleanup, join_resume}
use yep.Wut.Valid.{IsValid}

-- The running thread, in front of the queue, is not inside a `wut_join`.
abbrev pub Running : State → Type 0
Running s =
    (cur : ℕ) × (front s.queue ≡ some cur)
    × ((t : Tcb) × (find_tcb cur s.tcbs ≡ some t) × (t.waiting_id ≡ none))

-- One step: a call by the running thread, with any answers of the operating system, that returns or
-- switches to another thread; the return of a thread from its function; or the rest of a `wut_join`
-- whose thread has come to the front of the queue.
pub data Step (s : State) : State → Type 0 where
  creates :
      {s' : State} (os : Os) (r : Reply) → Running s → wut_create os s ≡ returned r s' → Step s s'
  yields : {s' : State} (os : Os) → Running s → wut_yield os s ≡ switched s' → Step s s'
  cancels :
      {s' : State} (os : Os) (id : ℕ) (r : Reply)
      → Running s
      → wut_cancel os id s ≡ returned r s'
      → Step s s'
  joins :
      {s' : State} (os : Os) (id : ℕ) (r : Reply)
      → Running s
      → wut_join os id s ≡ returned r s'
      → Step s s'
  waits : {s' : State} (os : Os) (id : ℕ) → Running s → wut_join os id s ≡ switched s' → Step s s'
  resumes :
      {s' : State} (os : Os) (cur id : ℕ) (t : Tcb) (r : Reply)
      → front s.queue ≡ some cur
      → find_tcb cur s.tcbs ≡ some t
      → t.waiting_id ≡ some id
      → join_resume os id s ≡ returned r s'
      → Step s s'
  exits :
      {s' : State} (os : Os) (status : ℕ)
      → Running s
      → wut_exit os status s ≡ switched s'
      → Step s s'
  ends : {s' : State} (os : Os) → Running s → exit_cleanup os s ≡ switched s' → Step s s'

pub data Reach : State → Type 0 where
  starts : {s : State} (os : Os) (link : Bool) → wut_init os link ≡ returned (value 0) s → Reach s
  later : {s t : State} → Reach s → Step s t → Reach t

-- A thread inside a `wut_join` is the waiter of the thread that it waits for, which stays in the list
-- till then, and it is ready only when that thread has exited.
abbrev pub Awaits : State → Type 0
Awaits s =
    (q id : ℕ) (t : Tcb)
    → find_tcb q s.tcbs ≡ some t
    → t.has_exited ≡ false
    → t.waiting_id ≡ some id
    → (u : Tcb) × (find_tcb id s.tcbs ≡ some u)
      × (u.waiter_id ≡ some q)
      × (queued q s.queue ≡ true → u.has_exited ≡ true)

pub record Inv (s : State) : Type 0 where
  pub valid : IsValid s
  pub awaits : Awaits s

-- The invariant, of the state that an outcome leaves if the program goes on.
abbrev pub Keeps : Outcome → Type 0
Keeps (returned r s) = Inv s
Keeps (switched s) = Inv s
Keeps died = Unit
Keeps exited = Unit
Keeps fault = Unit
