-- ===== src/Wut/State.antt =====
-- wut/src/wut.c: the data of the thread library, and the two queues that its operations share.
use yep.Common.{ℕ, Bool, true, false, Option, none, some, List, [], ◌∷◌, ◌++◌, ◌==◌, if◌then◌else◌}

-- `ucontext_t`, as far as the library reads it: whether `uc_link` is set. The saved registers and
-- the stack belong to the C library.
pub record Context : Type 0 where
  pub has_link : Bool

-- `struct tcb`. An id of -1 in `waiter_id` and `waiting_id` and a NULL `context` are `none`.
-- `queue_entry` is the thread's node of the ready queue, which carries the id `tid`.
pub record Tcb : Type 0 where
  pub tid : ℕ
  pub context : Option Context
  pub status : ℕ
  pub init : Bool
  pub waiter_id : Option ℕ
  pub waiting_id : Option ℕ
  pub has_exited : Bool

-- The two lists: `list_head`, the ready queue with the running thread in front, by ids, and
-- `tcb_queue_head`.
pub record State : Type 0 where
  pub queue : List ℕ
  pub tcbs : List Tcb

-- How the operating system answers during one call of the library: whether the `malloc` of a tcb,
-- `mmap`, `munmap`, and `setcontext` or `swapcontext` succeed.
pub record Os : Type 0 where
  pub allocates : Bool
  pub maps : Bool
  pub unmaps : Bool
  pub switches : Bool

pub data Reply : Type 0 where
  value : ℕ → Reply
  failure : Reply  -- -1

-- How a call ends: it returns to its caller; control goes to the thread in front of the queue;
-- `die` or `exit(0)` ends the process; or it uses an invalid pointer.
pub data Outcome : Type 0 where
  returned : Reply → State → Outcome
  switched : State → Outcome
  died : Outcome
  exited : Outcome
  fault : Outcome

-- `TAILQ_FOREACH` up to the tcb with an id; `none` is the NULL that the loop ends with.
unfoldable pub find_tcb : ℕ → List Tcb → Option Tcb
find_tcb id [] = none
find_tcb id (t ∷ ts) = if t.tid == id then some t else find_tcb id ts

-- An assignment through the pointer to that tcb.
unfoldable pub modify_tcb : ℕ → (Tcb → Tcb) → List Tcb → List Tcb
modify_tcb id f [] = []
modify_tcb id f (t ∷ ts) = if t.tid == id then f t ∷ ts else t ∷ modify_tcb id f ts

-- `TAILQ_REMOVE` of that tcb.
unfoldable pub remove_tcb : ℕ → List Tcb → List Tcb
remove_tcb id [] = []
remove_tcb id (t ∷ ts) = if t.tid == id then ts else t ∷ remove_tcb id ts

-- The search of the ready queue for an id.
unfoldable pub queued : ℕ → List ℕ → Bool
queued id [] = false
queued id (q ∷ qs) = if q == id then true else queued id qs

-- `TAILQ_REMOVE` of the node with that id.
unfoldable pub dequeue : ℕ → List ℕ → List ℕ
dequeue id [] = []
dequeue id (q ∷ qs) = if q == id then qs else q ∷ dequeue id qs

-- `TAILQ_INSERT_TAIL`.
unfoldable pub enqueue : ℕ → List ℕ → List ℕ
enqueue id qs = qs ++ id ∷ []

unfoldable pub front : List ℕ → Option ℕ
front [] = none
front (q ∷ qs) = some q

-- The return of an exited or cancelled thread's waiter to the back of the ready queue.
unfoldable pub wake : Option ℕ → List Tcb → List ℕ → List ℕ
unfolding enqueue
wake none ts qs = qs
wake (some w) ts qs = elim (find_tcb w ts) [ none ↦ qs | some t ↦ enqueue w qs ]

abbrev pub context_of : ℕ → List Tcb → Option Context
context_of id ts = elim (find_tcb id ts) [ none ↦ none | some t ↦ t.context ]

-- `setcontext` to the thread in front of the queue, which a NULL tcb or context makes invalid.
unfoldable pub set_context : Os → State → Outcome
unfolding front
set_context os s = elim (front s.queue) [
  | none ↦ fault
  | some next ↦ elim (context_of next s.tcbs) [
    | none ↦ fault
    | some c ↦ if os.switches then switched s else died
  ]
]

-- `swapcontext` from thread `id` to the thread in front of the queue.
unfoldable pub swap_context : Os → ℕ → State → Outcome
unfolding set_context
swap_context os id s = elim (context_of id s.tcbs) [ none ↦ fault | some c ↦ set_context os s ]
