-- ===== src/Wut/Run/Joining.antt =====
-- wut/src/wut.c: `wut_join` keeps the invariant of a program's steps.
use yep.Common.{
  ℕ, ◌≡◌, ◌≢◌, ◌⊎◌, refl, sym, ap, ◌∙◌, true, some, arith, ◌==◌, Bool-cases, Option-cases, inl, inr,
}
use yep.Wut.State.{
  Tcb, State, Os, Outcome, value, returned, died, find_tcb, queued, front, modify_tcb, remove_tcb,
}
use yep.Wut.Lifecycle.{clear_waiter, clear_waiting, join_resume, join_thread, wut_join}
use yep.Wut.Join.{Reaped, join_resume-Reaped, front-queued}
use yep.Wut.Waiting.{waiting_tcbs}
use yep.Wut.Wait.{Joinable, wut_join-Reaped}
use yep.Wut.Run.{Inv, Keeps}
use yep.Wut.Run.Queue.{Keeps-as}
use yep.Wut.Run.Cancelling.{unmapping, delete_stack-unmapping}

Reaped-Inv :
    {s s' : State} {cur id : ℕ}
    → Inv s
    → Reaped s cur id s'
    → ((u : Tcb) (q : ℕ) → find_tcb id s.tcbs ≡ some u → u.waiter_id ≡ some q → q ≡ cur)
    → Inv s'
Reaped-Inv {s = s} {s' = s'} {cur = cur} {id = id} i r alone = record {
  valid = r.valid;
  awaits = λ q j u h x y. elim (Bool-cases (id == q)) [
    | inl e ↦ absurd (ground (arith, r.found q))
    | inr e ↦ elim (Bool-cases (cur == q)) [
      | inl same ↦ absurd (cleared q u (ground arith) (ground arith) h y)
      | inr other ↦
          let before : find_tcb q s.tcbs ≡ some u = ground (arith, r.found q) in
          let (b, g, w, ready) = i.awaits q j u before x y in
          let keeps : queued q s'.queue ≡ true → b.has_exited ≡ true =
            λ k. ready (ap (queued q) (sym r.queue) ∙ k) in
          elim (Bool-cases (id == j)) [
            | inl target ↦ absurd (ground (arith, alone b q, g, w))
            | inr ne ↦ elim (Bool-cases (cur == j)) [
              | inl c ↦ (clear_waiting b, ground (arith, r.found j), w, keeps)
              | inr c ↦ (b, ground (arith, r.found j), w, keeps)
            ]
          ]
    ]
  ];
}
  where
    cleared :
        (q : ℕ) (u : Tcb) {j : ℕ}
        → id ≢ q
        → cur ≡ q
        → find_tcb q s'.tcbs ≡ some u
        → u.waiting_id ≢ some j
    cleared q u ne e h y = elim (Option-cases (find_tcb q s.tcbs)) [
      | inl f ↦ ground (arith, r.found q)
      | inr (b, f) ↦ ground (arith, r.found q)
    ]

join_resume-unmapping :
    (os : Os) (id : ℕ) (s : State)
    → (join_resume os id s ≡ join_resume (unmapping os) id s) ⊎ (join_resume os id s ≡ died)
unfolding join_resume
join_resume-unmapping os id s = elim (Option-cases (front s.queue)) [
  | inl f ↦ inl (ground (arith, f))
  | inr (cur, f) ↦ elim (Option-cases (find_tcb cur s.tcbs)) [
    | inl g ↦ inl (ground (arith, f, g))
    | inr (c, g) ↦ elim (Option-cases (find_tcb id s.tcbs)) [
      | inl h ↦ inl (ground (arith, f, g, h))
      | inr (w, h) ↦ elim (Option-cases w.context) [
        | inl k ↦ inl (ground (arith, f, g, h, k))
        | inr (x, k) ↦ elim (delete_stack-unmapping os w (reaping cur w)) [
          | inl e ↦ inl (ground (arith, f, g, h, k, e))
          | inr e ↦ inr (ground (arith, f, g, h, k, e))
        ]
      ]
    ]
  ]
]
  where
    reaping : ℕ → Tcb → Outcome
    reaping cur w = returned (value w.status) (record s {
      tcbs = remove_tcb id (modify_tcb id clear_waiter (modify_tcb cur clear_waiting s.tcbs));
    })

-- The rest of a join whose thread is ready again.
pub join_resume-Keeps :
    (os : Os) (cur id : ℕ) (t : Tcb) (s : State)
    → Inv s
    → front s.queue ≡ some cur
    → find_tcb cur s.tcbs ≡ some t
    → t.waiting_id ≡ some id
    → Keeps (join_resume os id s)
join_resume-Keeps os cur id t s i f known on =
    let here = front-queued s.queue f in
    let (t', g, alive) = i.valid.ready cur here in
    let (w, h, waiter, ready) = i.awaits cur id t known (ground arith) on in
    let (s', run, r) = join_resume-Reaped s i.valid cur id f w h (ready here) (unmapping os) refl in
    elim (join_resume-unmapping os id s) [
      | inl e ↦
          Keeps-as (join_resume os id s) (returned (value w.status) s') (e ∙ run)
            (Reaped-Inv i r (λ u q k l. ground (arith, h, waiter, k, l)))
      | inr e ↦ Keeps-as (join_resume os id s) died e tt
    ]

pub join_ended-Keeps :
    (os : Os) (cur id : ℕ) (t : Tcb) (s : State)
    → Inv s
    → front s.queue ≡ some cur
    → Joinable s cur id t
    → t.has_exited ≡ true
    → Keeps (wut_join os id s)
join_ended-Keeps os cur id t s i f j x =
    let (c, g, alive) = i.valid.ready cur (front-queued s.queue f) in
    let s₁ : State = record s { tcbs = waiting_tcbs cur id s.tcbs } in
    let goes : (o : Os) → wut_join o id s ≡ join_resume o id s₁ = λ o.
      unfold wut_join join_thread waiting_tcbs in
      ground (arith, f, g, j.known, j.other, j.unwaited, x) in
    let (s', run, r) = wut_join-Reaped s i.valid cur id t f j (unmapping os) refl x in
    elim (join_resume-unmapping os id s₁) [
      | inl e ↦
          Keeps-as (wut_join os id s) (returned (value t.status) s')
            (goes os ∙ e ∙ sym (goes (unmapping os)) ∙ run)
            (Reaped-Inv i r (λ u q k l. absurd (ground (arith, j.known, j.unwaited, k, l))))
      | inr e ↦ Keeps-as (wut_join os id s) died (goes os ∙ e) tt
    ]
