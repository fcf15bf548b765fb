-- ===== src/Wut/Run/Tests.antt =====
-- A run of wut/src/wut.c: the main thread makes a thread and waits for it, and it exits with 300.
use yep.Common.{◌≡◌, refl, true, false, some, [], ◌∷◌}
use yep.Wut.State.{
  Tcb, State, Os, value, returned, find_tcb, front, queued, modify_tcb, dequeue, wake, set_context,
  swap_context,
}
use yep.Wut.Schedule.{main_tcb, new_tcb, wut_init, wut_create}
use yep.Wut.Lifecycle.{
  wut_join, join_thread, wut_exit, join_resume, set_waiter, set_waiting, set_status,
}
use yep.Wut.Valid.{IsValid}
use yep.Wut.Join.{Reaped}
use yep.Wut.Run.{Reach, starts, later, creates, waits, exits, Awaits}
use yep.Wut.Run.Reachable.{Reach-Inv, Reach-resumes}

abbrev works : Os
works = record { allocates = true; maps = true; unmaps = true; switches = true }

abbrev started : State
started = record { queue = 0 ∷ []; tcbs = main_tcb false ∷ [] }

abbrev created : State
created = record { queue = 0 ∷ 1 ∷ []; tcbs = main_tcb false ∷ new_tcb 1 ∷ [] }

abbrev waiting : State
waiting = record {
  queue = 1 ∷ [];
  tcbs = set_waiting 1 (main_tcb false) ∷ set_waiter 0 (new_tcb 1) ∷ [];
}

abbrev left : State
left = record {
  queue = 0 ∷ [];
  tcbs = set_waiting 1 (main_tcb false) ∷ set_status 300 (set_waiter 0 (new_tcb 1)) ∷ [];
}

started-Reach : Reach started
unfolding wut_init
started-Reach = starts works false refl

created-Reach : Reach created
unfolding front find_tcb main_tcb wut_create
created-Reach =
    later started-Reach (creates works (value 1) (0, refl, (main_tcb false, refl, refl)) refl)

waiting-Reach : Reach waiting
unfolding front find_tcb main_tcb new_tcb wut_join queued join_thread swap_context modify_tcb
    dequeue
waiting-Reach = later created-Reach (waits works 1 (0, refl, (main_tcb false, refl, refl)) refl)

left-Reach : Reach left
unfolding front find_tcb main_tcb new_tcb wut_exit wake modify_tcb set_context
left-Reach =
    later waiting-Reach (exits works 300 (1, refl, (set_waiter 0 (new_tcb 1), refl, refl)) refl)

Reach-Inv_example : IsValid left × Awaits left
Reach-Inv_example = Reach-Inv left-Reach

Reach-resumes_example :
    (w : Tcb) × (s' : State) × (find_tcb 1 left.tcbs ≡ some w)
    × (w.has_exited ≡ true)
    × (join_resume works 1 left ≡ returned (value w.status) s')
    × Reaped left 0 1 s'
unfolding front find_tcb main_tcb
Reach-resumes_example =
    Reach-resumes left-Reach works 0 1 (set_waiting 1 (main_tcb false)) refl refl refl refl
