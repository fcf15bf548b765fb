-- ===== src/Wut/Valid.antt =====
-- The invariant of wut/src/wut.c's two queues between two calls of the library.
use yep.Common.{ℕ, ◌≡◌, ◌≢◌, true, false, some}
use yep.Wut.State.{Context, Tcb, State, find_tcb, queued}
use yep.Wut.Lookup.{From, Distinct}

-- Thread `id` exists and has not exited.
abbrev pub Alive : State → ℕ → Type 0
Alive s id = (t : Tcb) × (find_tcb id s.tcbs ≡ some t) × (t.has_exited ≡ false)

-- Thread `w` is blocked in a join on thread `id`.
abbrev pub Blocked : State → ℕ → ℕ → Type 0
Blocked s id w =
    (w ≢ id)
    × (queued w s.queue ≡ false)
    × ((u : Tcb) × (find_tcb w s.tcbs ≡ some u) × (u.has_exited ≡ false) × (u.waiting_id ≡ some id))

pub record IsValid (s : State) : Type 0 where
  pub ordered : From 0 s.tcbs
  pub distinct : Distinct s.queue
  pub ready : (q : ℕ) → queued q s.queue ≡ true → Alive s q
  pub runs :
      (q : ℕ) (t : Tcb)
      → find_tcb q s.tcbs ≡ some t
      → t.has_exited ≡ false
      → (c : Context) × (t.context ≡ some c)
  pub waited :
      (q : ℕ) (t : Tcb) (w : ℕ)
      → find_tcb q s.tcbs ≡ some t
      → t.has_exited ≡ false
      → t.waiter_id ≡ some w
      → Blocked s q w
