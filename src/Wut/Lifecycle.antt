-- ===== src/Wut/Lifecycle.antt =====
-- wut/src/wut.c: `wut_cancel`, `wut_join`, `wut_exit` and the cleanup context `_exit_cleanup`.
use yep.Common.{
  ℕ, ◌%◌, Bool, true, not, ◌&&◌, Option, none, some, List, [], ◌∷◌, ◌==◌, if◌then◌else◌,
}
use yep.Wut.State.{
  Tcb, State, Os, value, failure, Outcome, returned, died, exited, fault, find_tcb, modify_tcb,
  remove_tcb, queued, dequeue, front, wake, set_context, swap_context,
}

-- `delete_stack` of a thread other than the first, then the rest of the call.
unfoldable pub delete_stack : Os → Tcb → Outcome → Outcome
delete_stack os t rest =
    if t.init
    then rest
    else elim t.context [ none ↦ fault | some c ↦ if os.unmaps then rest else died ]

-- The loop that frees every thread. After the first one, `TAILQ_FOREACH` reads the link of the node
-- that has been freed.
unfoldable pub free_all : Os → List Tcb → Outcome
free_all os [] = exited
free_all os (t ∷ ts) = delete_stack os t fault

abbrev pub mark_exited : Tcb → Tcb
mark_exited t = record t { has_exited = true }

abbrev pub resume_queue : Os → State → Outcome
resume_queue os s = elim s.queue [ [] ↦ free_all os s.tcbs | q ∷ qs ↦ set_context os s ]

-- `_exit_cleanup`: where a thread's function ends by returning.
unfoldable pub exit_cleanup : Os → State → Outcome
exit_cleanup os s = elim s.queue [
  | [] ↦ fault
  | id ∷ rest ↦ elim (find_tcb id s.tcbs) [
    | none ↦ fault
    | some t ↦
        let ts = modify_tcb id mark_exited s.tcbs in
        resume_queue os (record { queue = wake t.waiter_id ts rest; tcbs = ts })
  ]
]

abbrev pub clear_waiter : Tcb → Tcb
clear_waiter t = record t { waiter_id = none }

abbrev pub clear_waiting : Tcb → Tcb
clear_waiting t = record t { waiting_id = none }

-- A cancelled thread stops waiting.
unfoldable pub unwait : ℕ → Option ℕ → List Tcb → List Tcb
unwait id none ts = ts
unwait id (some w) ts = elim (find_tcb w ts) [
  | none ↦ ts
  | some t ↦ modify_tcb w clear_waiter (modify_tcb id clear_waiting ts)
]

abbrev pub mark_cancelled : Tcb → Tcb
mark_cancelled t = record t { context = none; status = 128 }

-- What `wut_cancel` does to a thread that it may cancel.
unfoldable pub cancel_thread : Os → ℕ → Tcb → State → Outcome
unfolding delete_stack unwait
cancel_thread os id t s =
    let ts = modify_tcb id mark_exited s.tcbs in
    let left = if queued id s.queue then dequeue id s.queue else s.queue in
    delete_stack os t (
      returned (value 0) (record {
        queue = wake t.waiter_id ts left;
        tcbs = modify_tcb id mark_cancelled (unwait id t.waiting_id ts);
      }))

unfoldable pub wut_cancel : Os → ℕ → State → Outcome
unfolding front
wut_cancel os id s = elim (front s.queue) [
  | none ↦ died
  | some cur ↦ if id == cur then returned failure s else elim (find_tcb id s.tcbs) [
    | none ↦ returned failure s
    | some t ↦ if t.has_exited then returned failure s else cancel_thread os id t s
  ]
]

-- `wut_join` from where the waited thread has exited, which is after the switch back if the call
-- had to wait: the waited thread is removed and its status returned.
unfoldable pub join_resume : Os → ℕ → State → Outcome
unfolding front delete_stack
join_resume os id s = elim (front s.queue) [
  | none ↦ died
  | some cur ↦ elim (find_tcb cur s.tcbs) [
    | none ↦ fault
    | some c ↦ elim (find_tcb id s.tcbs) [
      | none ↦ fault
      | some waited ↦
          let done = returned (value waited.status) (record s {
            tcbs = remove_tcb id (modify_tcb id clear_waiter (modify_tcb cur clear_waiting s.tcbs));
          }) in
          elim waited.context [ none ↦ done | some u ↦ delete_stack os waited done ]
    ]
  ]
]

abbrev pub set_waiter : ℕ → Tcb → Tcb
set_waiter cur t = record t { waiter_id = some cur }

abbrev pub set_waiting : ℕ → Tcb → Tcb
set_waiting id t = record t { waiting_id = some id }

-- `wut_join` on a thread that may be waited for.
unfoldable pub join_thread : Os → ℕ → ℕ → Tcb → State → Outcome
join_thread os cur id waited s = elim (find_tcb cur s.tcbs) [
  | none ↦ fault
  | some c ↦
      let ts = modify_tcb id (set_waiter cur) (modify_tcb cur (set_waiting id) s.tcbs) in
      if waited.has_exited
      then join_resume os id (record s { tcbs = ts })
      else swap_context os cur (record { queue = dequeue cur s.queue; tcbs = ts })
]

unfoldable pub wut_join : Os → ℕ → State → Outcome
unfolding front
wut_join os id s = elim (find_tcb id s.tcbs) [
  | none ↦ returned failure s
  | some waited ↦ elim (front s.queue) [
    | none ↦ died
    | some cur ↦ if id == cur then returned failure s else elim waited.waiter_id [
      | some w ↦ returned failure s
      | none ↦
          if not (queued id s.queue) && not waited.has_exited
          then returned failure s
          else join_thread os cur id waited s
    ]
  ]
]

-- A thread whose context has no link runs the cleanup on a context of its own.
unfoldable pub leave : Os → Bool → State → Outcome
leave os has_link s =
    if has_link
    then set_context os s
    else if os.maps
    then (if os.switches then exit_cleanup os s else set_context os s)
    else died

-- `wut_exit` once the thread has left the queue and its waiter is back in it.
unfoldable pub exit_switch : Os → Tcb → State → Outcome
unfolding leave
exit_switch os t s = elim s.queue [
  | [] ↦ if os.switches then exit_cleanup os s else died
  | q ∷ qs ↦ elim t.context [ none ↦ fault | some c ↦ leave os c.has_link s ]
]

abbrev pub set_status : ℕ → Tcb → Tcb
set_status status t = record t { status = status % 256; has_exited = true }

unfoldable pub wut_exit : Os → ℕ → State → Outcome
unfolding exit_switch
wut_exit os status s = elim s.queue [
  | [] ↦ fault
  | id ∷ rest ↦ elim (find_tcb id s.tcbs) [
    | none ↦ fault
    | some t ↦
        let ts = modify_tcb id (set_status status) s.tcbs in
        exit_switch os t (record { queue = wake t.waiter_id ts rest; tcbs = ts })
  ]
]
