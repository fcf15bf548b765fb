-- ===== src/Wut/Run/Cancelling.antt =====
-- wut/src/wut.c: `wut_cancel` keeps the invariant of a program's steps.
use yep.Common.{
  ℕ, ◌≡◌, ◌≢◌, ◌⊎◌, refl, sym, ap, ◌∙◌, true, false, some, arith, ◌==◌, Bool-cases, Option-cases,
  inl, inr,
}
use yep.Wut.State.{
  Tcb, State, Os, Outcome, value, failure, returned, died, find_tcb, queued, front, dequeue,
}
use yep.Wut.Lifecycle.{delete_stack, cancel_thread, wut_cancel}
use yep.Wut.Lookup.{queued-dequeue}
use yep.Wut.Depart.{woken, woken-eq}
use yep.Wut.Cancel.{Cancelled, wut_cancel-Cancelled}
use yep.Wut.Run.{Inv, Keeps}
use yep.Wut.Run.Queue.{Keeps-as}
use yep.Wut.Run.Leaving.{queued-waiter_list, only_waiter}

module _ {s s' : State} {id : ℕ} {t : Tcb} (i : Inv s) (known : find_tcb id s.tcbs ≡ some t)
    (alive : t.has_exited ≡ false) (c : Cancelled s id t s') where
  -- What the others were before.
  before :
      (q : ℕ) (u : Tcb)
      → id ≢ q
      → find_tcb q s'.tcbs ≡ some u
      → (b : Tcb) × (find_tcb q s.tcbs ≡ some b)
        × (b.has_exited ≡ u.has_exited)
        × (b.waiting_id ≡ u.waiting_id)
  before q u ne h = elim (Option-cases (find_tcb q s.tcbs)) [
    | inl e ↦ absurd (ground (arith, c.others q ne, e))
    | inr (b, e) ↦ elim (Bool-cases (woken t.waiting_id q)) [
      | inl k ↦ (b, e, ground (arith, c.others q ne), ground (arith, c.others q ne))
      | inr k ↦ (b, e, ground (arith, c.others q ne), ground (arith, c.others q ne))
    ]
  ]

  -- A thread that waits for another one than `id`, and that is not `id`, waits for one whose waiter
  -- is not cleared.
  not_cleared :
      (q j : ℕ) (b : Tcb)
      → id ≢ q
      → find_tcb j s.tcbs ≡ some b
      → b.waiter_id ≡ some q
      → woken t.waiting_id j ≡ false
  not_cleared q j b ne g w = elim (Bool-cases (woken t.waiting_id j)) [
    | inr k ↦ k
    | inl k ↦
        let (b', g', w', ready) = i.awaits id j t known alive (woken-eq t.waiting_id j k) in
        absurd (ground (arith, g, g', w, w'))
  ]

  not_self : (q : ℕ) → id ≢ q → t.waiter_id ≡ some q → t.waiting_id ≢ some id
  not_self q ne w on =
      let (b, g, w', ready) = i.awaits id id t known alive on in ground (arith, known, g, w, w')

  still_ready :
      (q j : ℕ) (u b : Tcb)
      → id ≢ q
      → id ≢ j
      → find_tcb q s.tcbs ≡ some u
      → u.waiting_id ≡ some j
      → (queued q s.queue ≡ true → b.has_exited ≡ true)
      → queued q s'.queue ≡ true
      → b.has_exited ≡ true
  still_ready q j u b other ne f y ready k = elim (Bool-cases (woken t.waiter_id q)) [
    | inl w ↦ absurd (ne (sym (only_waiter q i known alive f y w)))
    | inr w ↦ ready (
        ground (
          arith,
          ap (queued q) c.queue,
          queued-waiter_list q (dequeue id s.queue) t.waiter_id,
          queued-dequeue q id s.queue i.valid.distinct,
        ))
  ]

  cancelled-Inv : Inv s'
  cancelled-Inv = record {
    valid = c.valid;
    awaits = λ q j u h x y. elim (Bool-cases (id == q)) [
      | inl same ↦ let (z, f, gone) = c.thread in absurd (ground (arith, f, gone.exits))
      | inr ne ↦
          let (b, f, exits, waits) = before q u (ground arith) h in
          let (a, g, w, ready) = i.awaits q j b f (exits ∙ x) (waits ∙ y) in
          elim (Bool-cases (id == j)) [
            | inl target ↦
                let (z, k, gone) = c.thread in
                let its : t.waiter_id ≡ some q = ground (arith, known, g, w) in
                (
                  z,
                  ground arith,
                  c.waiter z k (not_self q (ground arith) its) ∙ its,
                  λ r. gone.exits,
                )
            | inr other ↦ (
              a,
              ground (arith, c.others j, not_cleared q j a (ground arith) g w),
              w,
              still_ready q j b a (ground arith) (ground arith) f (waits ∙ y) ready,
            )
          ]
    ];
  }

-- Where `munmap` fails, a call ends the process or does what it does where it succeeds.
abbrev pub unmapping : Os → Os
unmapping os = record os { unmaps = true }

pub delete_stack-unmapping :
    (os : Os) (t : Tcb) (o : Outcome)
    → (delete_stack os t o ≡ delete_stack (unmapping os) t o) ⊎ (delete_stack os t o ≡ died)
unfolding delete_stack
delete_stack-unmapping os t o = elim (Bool-cases os.unmaps) [
  | inl e ↦ inl (ground (arith, e))
  | inr e ↦ elim (Bool-cases t.init) [
    | inl k ↦ inl (ground (arith, k))
    | inr k ↦ elim (Option-cases t.context) [
      | inl n ↦ inl (ground (arith, k, n))
      | inr (c, n) ↦ inr (ground (arith, k, n, e))
    ]
  ]
]

cancel_thread-unmapping :
    (os : Os) (id : ℕ) (t : Tcb) (s : State)
    → (cancel_thread os id t s ≡ cancel_thread (unmapping os) id t s)
      ⊎ (cancel_thread os id t s ≡ died)
unfolding cancel_thread
cancel_thread-unmapping os id t s = delete_stack-unmapping os t _

cancel_alive-Keeps :
    (os : Os) (id cur : ℕ) (t : Tcb) (s : State)
    → Inv s
    → front s.queue ≡ some cur
    → id ≢ cur
    → find_tcb id s.tcbs ≡ some t
    → t.has_exited ≡ false
    → Keeps (wut_cancel os id s)
cancel_alive-Keeps os id cur t s i f ne known alive =
    let (s', run, c) =
      wut_cancel-Cancelled s i.valid id t known alive (unmapping os) cur refl f ne in
    let here : wut_cancel os id s ≡ cancel_thread os id t s =
      unfold wut_cancel in ground (arith, f, known) in
    let there : wut_cancel (unmapping os) id s ≡ cancel_thread (unmapping os) id t s =
      unfold wut_cancel in ground (arith, f, known) in
    elim (cancel_thread-unmapping os id t s) [
      | inl e ↦
          Keeps-as (wut_cancel os id s) (returned (value 0) s') (here ∙ e ∙ sym there ∙ run)
            (cancelled-Inv i known alive c)
      | inr e ↦ Keeps-as (wut_cancel os id s) died (here ∙ e) tt
    ]

pub wut_cancel-Keeps : (os : Os) (id : ℕ) (s : State) → Inv s → Keeps (wut_cancel os id s)
wut_cancel-Keeps os id s i = elim (Option-cases (front s.queue)) [
  | inl f ↦ Keeps-as (wut_cancel os id s) died (unfold wut_cancel in ground (arith, f)) tt
  | inr (cur, f) ↦ elim (Bool-cases (id == cur)) [
    | inl e ↦
        Keeps-as (wut_cancel os id s) (returned failure s)
          (unfold wut_cancel in ground (arith, f, e)) i
    | inr e ↦ elim (Option-cases (find_tcb id s.tcbs)) [
      | inl k ↦
          Keeps-as (wut_cancel os id s) (returned failure s)
            (unfold wut_cancel in ground (arith, f, e, k)) i
      | inr (t, k) ↦ elim (Bool-cases t.has_exited) [
        | inl x ↦
            Keeps-as (wut_cancel os id s) (returned failure s)
              (unfold wut_cancel in ground (arith, f, e, k, x)) i
        | inr x ↦ cancel_alive-Keeps os id cur t s i f (ground arith) k x
      ]
    ]
  ]
]
