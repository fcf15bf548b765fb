-- ===== src/Wut/Cleanup.antt =====
-- wut/src/wut.c: the last thread's cleanup, and an exit of a thread whose context has no link.
use yep.Common.{ℕ, ◌≡◌, refl, ◌∙◌, Bool-cases, true, false, some, List, ◌∷◌, ◌++◌, arith, inl, inr}
use yep.Wut.State.{Context, Tcb, State, Os, switched, find_tcb, queued}
use yep.Wut.Lifecycle.{mark_exited, exit_switch, leave, wut_exit}
use yep.Wut.Valid.{IsValid}
use yep.Wut.Depart.{waiter_list}
use yep.Wut.Exit.{exited-Ended, wut_exit-exit_switch, exit_cleanup-Ended}

ended_unqueued :
    (s : State) (q : ℕ)
    → IsValid s
    → (u : Tcb) → find_tcb q s.tcbs ≡ some u
    → u.has_exited ≡ true
    → queued q s.queue ≡ false
ended_unqueued s q v u f x = elim (Bool-cases (queued q s.queue)) [
  | inl e ↦ let (t, g, y) = v.ready q e in absurd (ground arith)
  | inr e ↦ e
]

module _ {s : State} (v : IsValid s) {id : ℕ} {rest : List ℕ} (running : s.queue ≡ id ∷ rest)
    {t : Tcb} (known : find_tcb id s.tcbs ≡ some t) where
  -- In a valid state, `wut_exit` of a thread whose context has no link, as `getcontext` may leave it
  -- for the first thread, while at least two others are ready or coming back: the cleanup that it
  -- starts marks the thread `q` that is next in the queue as exited too and takes it off the queue,
  -- though it has not run.
  pub wut_exit_unlinked :
      (os : Os) (status q r : ℕ) (qs : List ℕ) (c : Context)
      → os.switches ≡ true
      → os.maps ≡ true
      → t.context ≡ some c
      → c.has_link ≡ false
      → rest ++ waiter_list t.waiter_id ≡ q ∷ r ∷ qs
      → (s' : State) × (wut_exit os status s ≡ switched s')
        × ((u : Tcb) × (find_tcb q s'.tcbs ≡ some u) × (u.has_exited ≡ true))
        × (queued q s'.queue ≡ false)
  wut_exit_unlinked os status q r qs c m k l n e =
      let first = rw e at (exited-Ended v running known status) in
      let (u, f, x) = first.valid.ready q (unfold queued in ground (arith, first.queue)) in
      let (s', run, last) = exit_cleanup-Ended first.valid first.queue f os r _ m refl in
      (
        s',
        wut_exit-exit_switch v running known os status
            ∙ unfold exit_switch leave in ground (arith, first.queue, run),
        (mark_exited u, ground (arith, last.thread), refl),
        ended_unqueued s' q last.valid (mark_exited u) (ground (arith, last.thread)) refl,
      )
