-- ===== src/Wut/Run/Reachable.antt =====
-- wut/src/wut.c: what holds in every state that a program of the library reaches.
use yep.Common.{ℕ, ◌≡◌, sym, subst, Bool, true, some, arith, Bool-cases, inl, inr}
use yep.Wut.State.{Tcb, State, Os, value, returned, died, find_tcb, front}
use yep.Wut.Schedule.{main_tcb, wut_init}
use yep.Wut.Lifecycle.{join_resume}
use yep.Wut.Valid.{IsValid}
use yep.Wut.Init.{initial, initial-IsValid, wut_init-initial}
use yep.Wut.Join.{Reaped, join_resume-Reaped, front-queued}
use yep.Wut.Run.{
  Step, creates, yields, cancels, joins, waits, resumes, exits, ends, Reach, starts, later, Awaits,
  Inv, Keeps,
}
use yep.Wut.Run.Queue.{Keeps-as, wut_create-Keeps, wut_yield-Keeps}
use yep.Wut.Run.Leaving.{wut_exit-Keeps, exit_cleanup-Keeps}
use yep.Wut.Run.Cancelling.{wut_cancel-Keeps}
use yep.Wut.Run.Joining.{join_resume-Keeps}
use yep.Wut.Run.Blocking.{wut_join-Keeps}

Step-Inv : {s s' : State} → Inv s → Step s s' → Inv s'
Step-Inv {s = s} i (creates os r (cur, f, t) run) = subst Keeps run (wut_create-Keeps os s i)
Step-Inv {s = s} i (yields os (cur, f, t) run) = subst Keeps run (wut_yield-Keeps os s i)
Step-Inv {s = s} i (cancels os id r (cur, f, t) run) = subst Keeps run (wut_cancel-Keeps os id s i)
Step-Inv {s = s} i (joins os id r (cur, f, t) run) =
    subst Keeps run (wut_join-Keeps os id cur s i f)
Step-Inv {s = s} i (waits os id (cur, f, t) run) = subst Keeps run (wut_join-Keeps os id cur s i f)
Step-Inv {s = s} i (resumes os cur id t r f k on run) =
    subst Keeps run (join_resume-Keeps os cur id t s i f k on)
Step-Inv {s = s} i (exits os status (cur, f, t) run) =
    subst Keeps run (wut_exit-Keeps os status s i)
Step-Inv {s = s} i (ends os (cur, f, t) run) = subst Keeps run (exit_cleanup-Keeps os s i)

initial-Inv : (link : Bool) → Inv (initial link)
unfolding initial main_tcb find_tcb
initial-Inv link = record {
  valid = initial-IsValid link;
  awaits = λ q id t h x y. absurd (ground (arith, h, y));
}

init-Keeps : (os : Os) (link : Bool) → Keeps (wut_init os link)
init-Keeps os link = elim (Bool-cases os.maps) [
  | inl m ↦ subst Keeps (sym (wut_init-initial os link m)) (initial-Inv link)
  | inr m ↦ Keeps-as (wut_init os link) died (unfold wut_init in ground (arith, m)) tt
]

-- In every state that a program of the library reaches, by calls, returns and resumed joins of the
-- thread in front of the queue and whatever the operating system answers, the state is valid, and a
-- thread inside a `wut_join` is the waiter of the thread that it waits for, which is still in the
-- list, and is ready only if that thread has exited.
pub Reach-Inv : {s : State} → Reach s → IsValid s × Awaits s
Reach-Inv r = let i = go r in (i.valid, i.awaits)
  where
    go : {s : State} → Reach s → Inv s
    go (starts os link run) = subst Keeps run (init-Keeps os link)
    go (later r st) = Step-Inv (go r) st

-- In every reachable state, when a thread that is inside a `wut_join` has come to the front of the
-- queue and `munmap` succeeds, the join returns the status of the thread that it waited for, which
-- has exited, and removes that thread.
pub Reach-resumes :
    {s : State}
    → Reach s
    → (os : Os) (cur id : ℕ) (t : Tcb) → os.unmaps ≡ true
    → front s.queue ≡ some cur
    → find_tcb cur s.tcbs ≡ some t
    → t.waiting_id ≡ some id
    → (w : Tcb) × (s' : State) × (find_tcb id s.tcbs ≡ some w)
      × (w.has_exited ≡ true)
      × (join_resume os id s ≡ returned (value w.status) s')
      × Reaped s cur id s'
Reach-resumes {s = s} r os cur id t m f known on =
    let (valid, awaits) = Reach-Inv r in
    let here = front-queued s.queue f in
    let (t', g, alive) = valid.ready cur here in
    let (w, h, waiter, ready) = awaits cur id t known (ground arith) on in
    let (s', run, reaped) = join_resume-Reaped s valid cur id f w h (ready here) os m in
    (w, s', h, ready here, run, reaped)
