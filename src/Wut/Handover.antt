-- ===== src/Wut/Handover.antt =====
-- wut/src/wut.c: when `wut_join` refuses, and the way of an exit status to the thread that joins.
use yep.Common.{
  ℕ, ◌%◌, ◌≡◌, ◌≢◌, ◌↔◌, refl, true, false, none, some, [], ◌∷◌, arith, ◌==◌, Bool-cases,
  Option-cases, inl, inr,
}
use yep.Wut.State.{
  Context, Tcb, State, Os, value, failure, returned, switched, find_tcb, queued, front, set_context,
  swap_context,
}
use yep.Wut.Lifecycle.{
  set_waiter, set_status, join_resume, join_thread, wut_join, wut_exit, delete_stack,
}
use yep.Wut.Valid.{IsValid}
use yep.Wut.Exit.{wut_exit-Ended}
use yep.Wut.Join.{join_resume-Reaped}
use yep.Wut.Wait.{Joinable, wut_join-Blocked}

join_thread-ne-failure :
    (os : Os) (cur id : ℕ) (t : Tcb) (s : State) → join_thread os cur id t s ≢ returned failure s
unfolding join_thread swap_context set_context join_resume delete_stack
join_thread-ne-failure os cur id t s h = ground (arith, h)

-- While thread `cur` is running, `wut_join` returns -1 and changes nothing exactly when the thread
-- with the id may not be joined: it does not exist, is the running one, has a waiter, or is itself
-- blocked, neither in the queue nor exited.
pub wut_join_refuses :
    (os : Os) (id cur : ℕ) (s : State)
    → front s.queue ≡ some cur
    → (wut_join os id s ≡ returned failure s) ↔ ¬ ((t : Tcb) × Joinable s cur id t)
unfolding wut_join
wut_join_refuses os id cur s h = (refused, refuses)
  where
    refused : wut_join os id s ≡ returned failure s → ¬ ((t : Tcb) × Joinable s cur id t)
    refused e (t, j) =
        ground (arith, j.known, j.other, j.unwaited, j.ready, join_thread-ne-failure os cur id t s)

    unjoinable :
        (t : Tcb)
        → find_tcb id s.tcbs ≡ some t
        → ¬ ((u : Tcb) × Joinable s cur id u)
        → wut_join os id s ≡ returned failure s
    unjoinable t f no_one = elim (Bool-cases (id == cur)) [
      | inl e ↦ ground arith
      | inr e ↦ elim (Option-cases t.waiter_id) [
        | inr (w, i) ↦ ground (arith, i)
        | inl i ↦ elim (Bool-cases (queued id s.queue)) [
          | inl r ↦
              absurd (
                no_one (t, record { known = f; other = ground arith; unwaited = i; ready = inl r }))
          | inr r ↦ elim (Bool-cases t.has_exited) [
            | inl x ↦ absurd (
                no_one (t, record { known = f; other = ground arith; unwaited = i; ready = inr x }))
            | inr x ↦ ground (arith, i, r, x)
          ]
        ]
      ]
    ]

    refuses : ¬ ((t : Tcb) × Joinable s cur id t) → wut_join os id s ≡ returned failure s
    refuses no_one = elim (Option-cases (find_tcb id s.tcbs)) [
      | inl e ↦ ground arith
      | inr (t, e) ↦ unjoinable t e no_one
    ]

-- In a valid state in which the ready threads are the running thread `cur` and then thread `id`,
-- which `cur` may join, and whose context links to the cleanup: when `cur` joins, thread `id` runs;
-- when that calls `wut_exit`, `cur` runs again; and the join then returns the low eight bits of the
-- status that thread `id` gave, and leaves a valid state without thread `id`, in which `cur` runs.
pub wut_join-wut_exit :
    (os : Os) (s : State) (cur id status : ℕ) (t : Tcb) (c : Context)
    → os.switches ≡ true
    → os.unmaps ≡ true
    → IsValid s
    → s.queue ≡ cur ∷ id ∷ []
    → Joinable s cur id t
    → t.has_exited ≡ false
    → t.context ≡ some c
    → c.has_link ≡ true
    → (s₁ : State) × (s₂ : State) × (s₃ : State) × (wut_join os id s ≡ switched s₁)
      × (wut_exit os status s₁ ≡ switched s₂)
      × (join_resume os id s₂ ≡ returned (value (status % 256)) s₃)
      × IsValid s₃
      × (s₃.queue ≡ cur ∷ [])
      × (find_tcb id s₃.tcbs ≡ none)
wut_join-wut_exit os s cur id status t c m u v q j x k l =
    let (s₁, joins, v₁, q₁, b₁, f₁) =
      wut_join-Blocked s v cur id t (unfold front in ground (arith, q)) j os m x in
    let known₁ : find_tcb id s₁.tcbs ≡ some (set_waiter cur t) = ground (arith, f₁ id, j.known) in
    let (s₂, exits, e₂) =
      wut_exit-Ended v₁ {id = id} {rest = []} (ground (arith, q, q₁)) known₁ os status cur [] c m k
        l refl in
    let known₂ : find_tcb id s₂.tcbs ≡ some (set_status status (set_waiter cur t)) =
      ground (arith, e₂.thread) in
    let (s₃, resumes, r₃) =
      join_resume-Reaped s₂ e₂.valid cur id (unfold front in ground (arith, e₂.queue)) _ known₂ refl
        os u in
    (
      s₁,
      s₂,
      s₃,
      joins,
      exits,
      resumes,
      r₃.valid,
      ground (arith, r₃.queue, e₂.queue),
      ground (arith, r₃.found id),
    )
