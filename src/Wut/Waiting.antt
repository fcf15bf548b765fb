-- ===== src/Wut/Waiting.antt =====
-- wut/src/wut.c, `wut_join`: the thread control blocks once a thread waits for another.
use yep.Common.{
  ℕ, ◌≡◌, ◌≢◌, ◌⊎◌, refl, sym, subst, true, false, some, List, arith, ◌==◌, if◌then◌else◌,
  Bool-cases, Option-cases, inl, inr,
}
use yep.Wut.State.{Context, Tcb, State, find_tcb, modify_tcb, queued}
use yep.Wut.Lifecycle.{set_waiter, set_waiting}
use yep.Wut.Lookup.{Distinct, map_tcb, find_tcb-modify_tcb, From-modify_tcb}
use yep.Wut.Valid.{Alive, Blocked, IsValid}

-- The tcbs once thread `cur` waits for thread `id`.
unfoldable pub waiting_tcbs : ℕ → ℕ → List Tcb → List Tcb
waiting_tcbs cur id ts = modify_tcb id (set_waiter cur) (modify_tcb cur (set_waiting id) ts)

module _ (s : State) (v : IsValid s) (cur id : ℕ) (ne : id ≢ cur)
    (running : queued cur s.queue ≡ true) where
  pub find_tcb-waiting :
      (j : ℕ)
      → find_tcb j (waiting_tcbs cur id s.tcbs) ≡ (
          if id == j
          then map_tcb (set_waiter cur) (find_tcb j s.tcbs)
          else if cur == j
          then map_tcb (set_waiting id) (find_tcb j s.tcbs)
          else find_tcb j s.tcbs)
  unfolding waiting_tcbs
  find_tcb-waiting j = ground (
    arith,
    find_tcb-modify_tcb j id (set_waiter cur) (modify_tcb cur (set_waiting id) s.tcbs) (λ t. refl),
    find_tcb-modify_tcb j cur (set_waiting id) s.tcbs (λ t. refl),
  )

  -- A queue that lacks `cur`, unless thread `id` has exited.
  module _ (qs : List ℕ) (distinct : Distinct qs)
      (less : (j : ℕ) → queued j qs ≡ true → queued j s.queue ≡ true) (w : Tcb)
      (known : find_tcb id s.tcbs ≡ some w)
      (leaves : (w.has_exited ≡ true) ⊎ (queued cur qs ≡ false)) where
    pub waiting : State
    waiting = record { queue = qs; tcbs = waiting_tcbs cur id s.tcbs }

    waiting_ready : (q : ℕ) → queued q waiting.queue ≡ true → Alive waiting q
    unfolding waiting
    waiting_ready q h =
        let (t, f, x) = v.ready q (less q h) in
        elim (Bool-cases (id == q)) [
          | inl e ↦ (set_waiter cur t, ground (arith, find_tcb-waiting q), x)
          | inr e ↦ elim (Bool-cases (cur == q)) [
            | inl i ↦ (set_waiting id t, ground (arith, find_tcb-waiting q), x)
            | inr i ↦ (t, ground (arith, find_tcb-waiting q), x)
          ]
        ]

    waiting_runs :
        (q : ℕ) (t : Tcb)
        → find_tcb q waiting.tcbs ≡ some t
        → t.has_exited ≡ false
        → (c : Context) × (t.context ≡ some c)
    unfolding waiting
    waiting_runs q t h x = elim (Option-cases (find_tcb q s.tcbs)) [
      | inl e ↦ absurd (ground (arith, find_tcb-waiting q, h))
      | inr (u, e) ↦
          let (c, k) = v.runs q u e (ground (arith, find_tcb-waiting q, h)) in
          (c, ground (arith, find_tcb-waiting q, h))
    ]

    kept : (b : ℕ) → queued b s.queue ≡ false → queued b qs ≡ false
    kept b h = elim (Bool-cases (queued b qs)) [
      | inl e ↦ absurd (ground (arith, less b e))
      | inr e ↦ e
    ]

    pub waiting_self : w.has_exited ≡ false → Blocked waiting id cur
    unfolding waiting
    waiting_self x =
        let (t, f, y) = v.ready cur running in
        (
          λ e. ne (sym e),
          ground (arith, leaves),
          (set_waiting id t, ground (arith, find_tcb-waiting cur), y, refl),
        )

    waiting_other :
        (q : ℕ) (u : Tcb) (b : ℕ)
        → find_tcb q s.tcbs ≡ some u
        → u.has_exited ≡ false
        → u.waiter_id ≡ some b
        → Blocked waiting q b
    unfolding waiting
    waiting_other q u b h x y =
        let (nb, nq, (z, g, al, on)) = v.waited q u b h x y in
        elim (Bool-cases (id == b)) [
          | inl e ↦ (nb, kept b nq, (set_waiter cur z, ground (arith, find_tcb-waiting b), al, on))
          | inr e ↦ (nb, kept b nq, (z, ground (arith, find_tcb-waiting b), al, on))
        ]

    waiting_waited :
        (q : ℕ) (t : Tcb) (b : ℕ)
        → find_tcb q waiting.tcbs ≡ some t
        → t.has_exited ≡ false
        → t.waiter_id ≡ some b
        → Blocked waiting q b
    unfolding waiting
    waiting_waited q t b h x y = elim (Bool-cases (id == q)) [
      | inl e ↦
          subst (λ k. Blocked waiting k b) (ground arith)
            (subst (λ k. Blocked waiting id k) (ground (arith, find_tcb-waiting q, h, y))
              (waiting_self (ground (arith, find_tcb-waiting q, h, x))))
      | inr e ↦ elim (Option-cases (find_tcb q s.tcbs)) [
        | inl i ↦ absurd (ground (arith, find_tcb-waiting q, h))
        | inr (u, i) ↦
            waiting_other q u b i (ground (arith, find_tcb-waiting q, h))
              (ground (arith, find_tcb-waiting q, h))
      ]
    ]

    pub waiting-IsValid : IsValid (record { queue = qs; tcbs = waiting_tcbs cur id s.tcbs })
    unfolding waiting
    waiting-IsValid = record {
      ordered =
          unfold waiting_tcbs in
          From-modify_tcb 0 id (set_waiter cur) _ (λ t. refl)
            (From-modify_tcb 0 cur (set_waiting id) s.tcbs (λ t. refl) v.ordered);
      distinct = distinct;
      ready = waiting_ready;
      runs = waiting_runs;
      waited = waiting_waited;
    }
