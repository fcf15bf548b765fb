-- ===== src/Wut/Join.antt =====
-- wut/src/wut.c, `wut_join`: when it refuses, when it waits, and what it returns.
use yep.Common.{
  ℕ, ◌≡◌, ◌≢◌, refl, true, false, none, some, List, [], ◌∷◌, arith, ◌==◌, if◌then◌else◌, Bool-cases,
  Option-cases, inl, inr,
}
use yep.Wut.State.{
  Context, Tcb, State, Os, value, returned, find_tcb, modify_tcb, remove_tcb, queued, front,
}
use yep.Wut.Lifecycle.{clear_waiter, clear_waiting, join_resume}
use yep.Wut.Lookup.{
  From, map_tcb, find_tcb-modify_tcb, From-modify_tcb, find_tcb-remove_tcb, From-remove_tcb,
}
use yep.Wut.Valid.{Alive, Blocked, IsValid}

-- The tcbs after thread `id` is reaped by thread `cur`.
reaped_tcbs : ℕ → ℕ → List Tcb → List Tcb
reaped_tcbs cur id ts = remove_tcb id (modify_tcb id clear_waiter (modify_tcb cur clear_waiting ts))

module _ (s : State) (v : IsValid s) (cur id : ℕ) (ne : id ≢ cur) where
  reaped-ordered : From 0 (modify_tcb id clear_waiter (modify_tcb cur clear_waiting s.tcbs))
  reaped-ordered =
      From-modify_tcb 0 id clear_waiter _ (λ t. refl)
        (From-modify_tcb 0 cur clear_waiting s.tcbs (λ t. refl) v.ordered)

  find_tcb-reaped :
      (j : ℕ)
      → find_tcb j (reaped_tcbs cur id s.tcbs) ≡ (
          if id == j
          then none
          else if cur == j
          then map_tcb clear_waiting (find_tcb j s.tcbs)
          else find_tcb j s.tcbs)
  unfolding reaped_tcbs
  find_tcb-reaped j = ground (
    arith,
    find_tcb-remove_tcb j id 0 _ reaped-ordered,
    find_tcb-modify_tcb j id clear_waiter (modify_tcb cur clear_waiting s.tcbs) (λ t. refl),
    find_tcb-modify_tcb j cur clear_waiting s.tcbs (λ t. refl),
  )

  reaped : State
  reaped = record s { tcbs = reaped_tcbs cur id s.tcbs }

  module _ (w : Tcb) (known : find_tcb id s.tcbs ≡ some w) (exits : w.has_exited ≡ true)
      (running : queued cur s.queue ≡ true) where
    -- Nobody that is alive waits for `cur`, and so nobody's wait changes.
    reaped_waited :
        (q : ℕ) (t : Tcb) (b : ℕ)
        → find_tcb q reaped.tcbs ≡ some t
        → t.has_exited ≡ false
        → t.waiter_id ≡ some b
        → Blocked reaped q b
    unfolding reaped
    reaped_waited q t b h x y = elim (Option-cases (find_tcb q s.tcbs)) [
      | inl e ↦ absurd (ground (arith, find_tcb-reaped q, h))
      | inr (u, e) ↦
          let (nb, nq, (z, g, al, on)) =
            v.waited q u b e (ground (arith, find_tcb-reaped q, h))
              (ground (arith, find_tcb-reaped q, h)) in
          (nb, nq, (z, ground (arith, find_tcb-reaped b), al, on))
    ]

    reaped_ready : (q : ℕ) → queued q reaped.queue ≡ true → Alive reaped q
    unfolding reaped
    reaped_ready q h =
        let (t, f, x) = v.ready q h in
        elim (Bool-cases (cur == q)) [
          | inl e ↦ (clear_waiting t, ground (arith, find_tcb-reaped q), x)
          | inr e ↦ (t, ground (arith, find_tcb-reaped q), x)
        ]

    reaped_runs :
        (q : ℕ) (t : Tcb)
        → find_tcb q reaped.tcbs ≡ some t
        → t.has_exited ≡ false
        → (c : Context) × (t.context ≡ some c)
    unfolding reaped
    reaped_runs q t h x = elim (Option-cases (find_tcb q s.tcbs)) [
      | inl e ↦ absurd (ground (arith, find_tcb-reaped q, h))
      | inr (u, e) ↦
          let (c, k) = v.runs q u e (ground (arith, find_tcb-reaped q, h)) in
          (c, ground (arith, find_tcb-reaped q, h))
    ]

    reaped-IsValid : IsValid reaped
    reaped-IsValid = record {
      ordered = unfold reaped reaped_tcbs in From-remove_tcb 0 id _ reaped-ordered;
      distinct = unfold reaped in v.distinct;
      ready = reaped_ready;
      runs = reaped_runs;
      waited = reaped_waited;
    }

pub front-queued : (qs : List ℕ) {cur : ℕ} → front qs ≡ some cur → queued cur qs ≡ true
unfolding front queued
front-queued [] h = ground arith
front-queued (q ∷ qs) h = ground arith

-- What a join that reaps thread `id` changes.
pub record Reaped (s : State) (cur id : ℕ) (s' : State) : Type 0 where
  pub valid : IsValid s'
  pub queue : s'.queue ≡ s.queue
  pub found :
      (j : ℕ)
      → find_tcb j s'.tcbs ≡ (
          if id == j
          then none
          else if cur == j
          then map_tcb clear_waiting (find_tcb j s.tcbs)
          else find_tcb j s.tcbs)

module _ (s : State) (v : IsValid s) (cur id : ℕ) (running : front s.queue ≡ some cur) (w : Tcb)
    (known : find_tcb id s.tcbs ≡ some w) (exits : w.has_exited ≡ true) where
  pub running_queued : queued cur s.queue ≡ true
  unfolding queued front
  running_queued = front-queued s.queue running

  apart : id ≢ cur
  apart e = let (t, f, x) = v.ready cur running_queued in ground arith

  -- In a valid state in which thread `id` has exited, where `munmap` succeeds, the rest of
  -- `wut_join` after the wait returns the status of thread `id` and removes the thread, so that no
  -- thread has its id; the running thread waits for nobody, the others and the queue are as before,
  -- and the new state is valid.
  pub join_resume-Reaped :
      (os : Os)
      → os.unmaps ≡ true
      → (s' : State) × (join_resume os id s ≡ returned (value w.status) s') × Reaped s cur id s'
  unfolding join_resume reaped reaped_tcbs
  join_resume-Reaped os m =
      let (t, f, x) = v.ready cur running_queued in
      (
        reaped s v cur id apart,
        ground (arith, f),
        record {
          valid = reaped-IsValid s v cur id apart w known exits running_queued;
          queue = refl;
          found = find_tcb-reaped s v cur id apart;
        },
      )
