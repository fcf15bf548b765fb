-- ===== src/Wut/Run/Queue.antt =====
-- wut/src/wut.c: `wut_init`, `wut_create` and `wut_yield` keep the invariant of a program's steps.
use yep.Common.{
  ℕ, ◌≡◌, ◌⊎◌, refl, sym, subst, ◌∙◌, false, some, List, [], ◌∷◌, arith, ◌==◌, Bool-cases,
  Option-cases, inl, inr,
}
use yep.Wut.State.{
  State, Os, failure, returned, died, fault, queued, enqueue, set_context, swap_context, front,
  context_of, Context, Outcome,
}
use yep.Wut.Schedule.{new_tcb, wut_create, wut_yield}
use yep.Wut.Lookup.{queued-enqueue}
use yep.Wut.Create.{Created, wut_create-Created}
use yep.Wut.Yield.{wut_yield-rotated, queued-rotated}
use yep.Wut.Run.{Inv, Keeps}

Created-Inv : {s s' : State} {id : ℕ} → Inv s → Created s id s' → Inv s'
Created-Inv {s} {s'} {id} i c = record {
  valid = c.valid;
  awaits = λ q j t h x y. elim (Bool-cases (id == q)) [
    | inl e ↦ absurd (unfold new_tcb in ground (arith, c.found q))
    | inr e ↦
        let (u, g, w, ready) = i.awaits q j t (ground (arith, c.found q)) x y in
        (
          u,
          ground (arith, c.found j, c.free),
          w,
          λ k. ready (unfold enqueue in ground (arith, c.queue, queued-enqueue q id s.queue)),
        )
  ];
}

pub wut_create-Keeps : (os : Os) (s : State) → Inv s → Keeps (wut_create os s)
wut_create-Keeps os s i = elim (Bool-cases os.allocates) [
  | inr a ↦ unfold wut_create in rw a tt
  | inl a ↦ elim (Bool-cases os.maps) [
    | inr m ↦ unfold wut_create in rw (a, m) tt
    | inl m ↦
        let (id, s', run, c) = wut_create-Created s i.valid os a m in
        subst Keeps (sym run) (Created-Inv i c)
  ]
]

-- One outcome in place of another.
pub Keeps-as : (o o' : Outcome) → o ≡ o' → Keeps o' → Keeps o
Keeps-as o o' e k = subst Keeps (sym e) k

-- An outcome after which the program does not go on.
abbrev pub Stops : Outcome → Type 0
Stops o = (o ≡ died) ⊎ (o ≡ fault)

pub Stops-Keeps : (o : Outcome) → Stops o → Keeps o
Stops-Keeps o (inl e) = subst Keeps (sym e) tt
Stops-Keeps o (inr e) = subst Keeps (sym e) tt

pub set_context-Stops : (os : Os) (s : State) → os.switches ≡ false → Stops (set_context os s)
unfolding set_context
set_context-Stops os s m = elim (Option-cases (front s.queue)) [
  | inl e ↦ inr (ground (arith, e))
  | inr (next, e) ↦ elim (Option-cases (context_of next s.tcbs)) [
    | inl k ↦ inr (ground (arith, e, k))
    | inr (c, k) ↦ inl (ground (arith, e, k, m))
  ]
]

pub swap_context-Stops :
    (os : Os) (id : ℕ) (s : State) → os.switches ≡ false → Stops (swap_context os id s)
unfolding swap_context
swap_context-Stops os id s m = elim (Option-cases (context_of id s.tcbs)) [
  | inl k ↦ inr (ground (arith, k))
  | inr (c, k) ↦ subst Stops (sym (the_rest c k)) (set_context-Stops os s m)
]
  where
    the_rest :
        (c : Context) → context_of id s.tcbs ≡ some c → swap_context os id s ≡ set_context os s
    the_rest c k = ground (arith, k)

-- Where the queue is empty nobody is ready.
drained-Inv : (s : State) → Inv s → Inv (record s { queue = [] })
unfolding queued
drained-Inv s i = record {
  valid = record {
    ordered = i.valid.ordered;
    distinct = tt;
    ready = λ q h. absurd (ground arith);
    runs = i.valid.runs;
    waited = λ q t w h x y. let (ne, nq, b) = i.valid.waited q t w h x y in (ne, refl, b);
  };
  awaits = λ q j t h x y.
      let (u, g, w, ready) = i.awaits q j t h x y in (u, g, w, λ k. absurd (ground arith));
}

yield_rest-Keeps :
    (os : Os) (s : State) (cur : ℕ) (qs : List ℕ)
    → Inv s
    → s.queue ≡ cur ∷ qs
    → Keeps (wut_yield os s)
yield_rest-Keeps os s cur [] i e =
    let run : wut_yield os s ≡ returned failure (record s { queue = [] }) =
      unfold wut_yield in ground (arith, e) in
    subst Keeps (sym run) (drained-Inv s i)
yield_rest-Keeps os s cur (q ∷ qs) i e = elim (Bool-cases os.switches) [
  | inl m ↦
      let (run, valid) = wut_yield-rotated s i.valid cur q qs e os m in
      subst Keeps (sym run) (record {
        valid = valid;
        awaits = λ p j t h x y.
            let (u, g, w, ready) = i.awaits p j t h x y in
            (u, g, w, λ k. ready (sym (queued-rotated s i.valid cur q qs e p) ∙ k));
      })
  | inr m ↦
      let next : State = record { queue = enqueue cur (q ∷ qs); tcbs = s.tcbs } in
      let run : wut_yield os s ≡ swap_context os cur next = unfold wut_yield in ground (arith, e) in
      subst Keeps (sym run)
        (Stops-Keeps (swap_context os cur next) (swap_context-Stops os cur next m))
]

pub wut_yield-Keeps : (os : Os) (s : State) → Inv s → Keeps (wut_yield os s)
wut_yield-Keeps os s i = go s.queue refl
  where
    go : (qs : List ℕ) → s.queue ≡ qs → Keeps (wut_yield os s)
    go [] e =
        let run : wut_yield os s ≡ fault = unfold wut_yield in ground (arith, e) in
        subst Keeps (sym run) tt
    go (cur ∷ qs) e = yield_rest-Keeps os s cur qs i e
