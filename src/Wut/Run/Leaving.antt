-- ===== src/Wut/Run/Leaving.antt =====
-- wut/src/wut.c: `wut_cancel`, `wut_exit` and `_exit_cleanup` keep the invariant of a program's steps.
use yep.Common.{
  ℕ, ◌≡◌, ◌≢◌, refl, sym, subst, ap, ◌∙◌, Bool, true, false, Option, none, some, List, [], ◌∷◌,
  ◌++◌, arith, ◌==◌, ◌||◌, Bool-cases, Option-cases, inl, inr,
}
use yep.Wut.State.{Tcb, State, Os, Outcome, died, fault, find_tcb, queued, front, set_context}
use yep.Wut.Lifecycle.{
  delete_stack, free_all, resume_queue, exit_cleanup, leave, exit_switch, wut_exit,
}
use yep.Wut.Depart.{woken, woken-eq, waiter_list}
use yep.Wut.Exit.{
  set_context-switched, Ended, exited_state, exited-Ended, wut_exit-exit_switch, returned_state,
  returned-Ended, exit_cleanup-resume,
}
use yep.Wut.Run.{Inv, Keeps}
use yep.Wut.Run.Queue.{Keeps-as, Stops-Keeps, set_context-Stops}

pub queued-waiter_list :
    (j : ℕ) (qs : List ℕ) (o : Option ℕ)
    → queued j (qs ++ waiter_list o) ≡ (queued j qs || woken o j)
unfolding queued
queued-waiter_list j [] none = refl
queued-waiter_list j [] (some w) = ground arith
queued-waiter_list j (q ∷ qs) o = ground (arith, queued-waiter_list j qs o)

-- A thread that comes back as the waiter of `id` waits for `id` and for no other thread.
pub only_waiter :
    {s : State} {id : ℕ} (q : ℕ) {j : ℕ} {t u : Tcb}
    → Inv s
    → find_tcb id s.tcbs ≡ some t
    → t.has_exited ≡ false
    → find_tcb q s.tcbs ≡ some u
    → u.waiting_id ≡ some j
    → woken t.waiter_id q ≡ true
    → j ≡ id
only_waiter {s = s} {id = id} q {j = j} {t = t} {u = u} i known alive f y k =
    let (nw, nq, (b, g, x, on)) = i.valid.waited id t q known alive (woken-eq t.waiter_id q k) in
    ground (arith, f, g, y, on)

module _ {s s' : State} {id : ℕ} {t : Tcb} {f : Tcb → Tcb} {rest : List ℕ} (i : Inv s)
    (running : s.queue ≡ id ∷ rest) (known : find_tcb id s.tcbs ≡ some t)
    (e : Ended s id f (rest ++ waiter_list t.waiter_id) s')
    (keeps : (u : Tcb) → (f u).waiter_id ≡ u.waiter_id)
    (ends : (u : Tcb) → (f u).has_exited ≡ true) where
  ended_alive : t.has_exited ≡ false
  ended_alive =
      let (u, g, x) = i.valid.ready id (rw running (unfold queued in ground arith)) in ground arith

  ended_ready :
      (q j : ℕ) (u b : Tcb)
      → id ≢ j
      → find_tcb q s.tcbs ≡ some u
      → u.waiting_id ≡ some j
      → (queued q s.queue ≡ true → b.has_exited ≡ true)
      → queued q s'.queue ≡ true
      → b.has_exited ≡ true
  ended_ready q j u b ne f y ready k = elim (Bool-cases (woken t.waiter_id q)) [
    | inl w ↦ absurd (ne (sym (only_waiter q i known ended_alive f y w)))
    | inr w ↦
        let stays : queued q rest ≡ true =
          ground (arith, queued-waiter_list q rest t.waiter_id, ap (queued q) e.queue) in
        ready (rw running (unfold queued in ground arith))
  ]

  pub Ended-Inv : Inv s'
  Ended-Inv = record {
    valid = e.valid;
    awaits = λ q j u h x y. elim (Bool-cases (id == q)) [
      | inl same ↦ absurd (ground (arith, e.thread, ends t))
      | inr ne ↦
          let before : find_tcb q s.tcbs ≡ some u = ground (arith, e.others q) in
          let (b, g, w, ready) = i.awaits q j u before x y in
          elim (Bool-cases (id == j)) [
            | inl target ↦ (f t, ground (arith, e.thread), keeps t ∙ ground (arith, g), λ k. ends t)
            | inr other ↦ (
              b,
              ground (arith, e.others j),
              w,
              ended_ready q j u b (ground arith) before y ready,
            )
          ]
    ];
  }

pub set_context-Keeps : (os : Os) (s : State) → Inv s → Keeps (set_context os s)
set_context-Keeps os s i = elim (Bool-cases os.switches) [
  | inr m ↦ Stops-Keeps (set_context os s) (set_context-Stops os s m)
  | inl m ↦ go m s.queue refl
]
  where
    go : os.switches ≡ true → (qs : List ℕ) → s.queue ≡ qs → Keeps (set_context os s)
    go m [] e =
        let run : set_context os s ≡ fault = unfold set_context front in ground (arith, e) in
        subst Keeps (sym run) tt
    go m (q ∷ qs) e = subst Keeps (sym (set_context-switched os s q qs i.valid e m)) i

delete_stack-Keeps : (os : Os) (t : Tcb) (o : Outcome) → Keeps o → Keeps (delete_stack os t o)
delete_stack-Keeps os t o k = elim (Bool-cases t.init) [
  | inl m ↦ unfold delete_stack in rw m k
  | inr m ↦ elim (Option-cases t.context) [
    | inl c ↦ unfold delete_stack in rw (m, c) tt
    | inr (x, c) ↦ elim (Bool-cases os.unmaps) [
      | inl u ↦ unfold delete_stack in rw (m, c, u) k
      | inr u ↦ unfold delete_stack in rw (m, c, u) tt
    ]
  ]
]

free_all-Keeps : (os : Os) (ts : List Tcb) → Keeps (free_all os ts)
unfolding free_all
free_all-Keeps os [] = tt
free_all-Keeps os (t ∷ ts) = delete_stack-Keeps os t fault tt

resume_queue-Keeps :
    (os : Os) (s : State) (qs : List ℕ) → s.queue ≡ qs → Inv s → Keeps (resume_queue os s)
resume_queue-Keeps os s [] e i =
    Keeps-as (resume_queue os s) (free_all os s.tcbs) (ground (arith, e)) (free_all-Keeps os s.tcbs)
resume_queue-Keeps os s (q ∷ qs) e i =
    Keeps-as (resume_queue os s) (set_context os s) (ground (arith, e)) (set_context-Keeps os s i)

pub exit_cleanup-Keeps : (os : Os) (s : State) → Inv s → Keeps (exit_cleanup os s)
exit_cleanup-Keeps os s i = go s.queue refl
  where
    go : (qs : List ℕ) → s.queue ≡ qs → Keeps (exit_cleanup os s)
    go [] e = Keeps-as (exit_cleanup os s) fault (unfold exit_cleanup in ground (arith, e)) tt
    go (id ∷ rest) e = elim (Option-cases (find_tcb id s.tcbs)) [
      | inl f ↦ Keeps-as (exit_cleanup os s) fault (unfold exit_cleanup in ground (arith, e, f)) tt
      | inr (t, f) ↦
          let after = returned_state i.valid e f in
          subst Keeps (sym (exit_cleanup-resume i.valid e f os)) (
            resume_queue-Keeps os after after.queue refl
              (Ended-Inv i e f (returned-Ended i.valid e f) (λ u. refl) (λ u. refl)))
    ]

leave-Keeps : (os : Os) (link : Bool) (s : State) → Inv s → Keeps (leave os link s)
unfolding leave
leave-Keeps os true s i = set_context-Keeps os s i
leave-Keeps os false s i = elim (Bool-cases os.maps) [
  | inr m ↦ Keeps-as (leave os false s) died (ground (arith, m)) tt
  | inl m ↦ elim (Bool-cases os.switches) [
    | inr n ↦
        Keeps-as (leave os false s) (set_context os s) (ground (arith, m, n))
          (set_context-Keeps os s i)
    | inl n ↦
        Keeps-as (leave os false s) (exit_cleanup os s) (ground (arith, m, n))
          (exit_cleanup-Keeps os s i)
  ]
]

exit_switch-Keeps :
    (os : Os) (t : Tcb) (s : State) (qs : List ℕ)
    → s.queue ≡ qs
    → Inv s
    → Keeps (exit_switch os t s)
exit_switch-Keeps os t s [] e i = elim (Bool-cases os.switches) [
  | inl m ↦
      Keeps-as (exit_switch os t s) (exit_cleanup os s) (unfold exit_switch in ground (arith, e, m))
        (exit_cleanup-Keeps os s i)
  | inr m ↦ Keeps-as (exit_switch os t s) died (unfold exit_switch in ground (arith, e, m)) tt
]
exit_switch-Keeps os t s (q ∷ qs) e i = elim (Option-cases t.context) [
  | inl c ↦ Keeps-as (exit_switch os t s) fault (unfold exit_switch in ground (arith, e, c)) tt
  | inr (x, c) ↦
      Keeps-as (exit_switch os t s) (leave os x.has_link s)
        (unfold exit_switch in ground (arith, e, c)) (leave-Keeps os x.has_link s i)
]

pub wut_exit-Keeps : (os : Os) (status : ℕ) (s : State) → Inv s → Keeps (wut_exit os status s)
wut_exit-Keeps os status s i = go s.queue refl
  where
    go : (qs : List ℕ) → s.queue ≡ qs → Keeps (wut_exit os status s)
    go [] e = Keeps-as (wut_exit os status s) fault (unfold wut_exit in ground (arith, e)) tt
    go (id ∷ rest) e = elim (Option-cases (find_tcb id s.tcbs)) [
      | inl f ↦ Keeps-as (wut_exit os status s) fault (unfold wut_exit in ground (arith, e, f)) tt
      | inr (t, f) ↦
          let after = exited_state i.valid e f status in
          subst Keeps (sym (wut_exit-exit_switch i.valid e f os status)) (
            exit_switch-Keeps os t after after.queue refl
              (Ended-Inv i e f (exited-Ended i.valid e f status) (λ u. refl) (λ u. refl)))
    ]
