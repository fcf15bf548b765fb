-- ===== src/Wut/Yield.antt =====
-- wut/src/wut.c, `wut_yield`: the turn goes round the ready queue.
use yep.Common.{
  ℕ, zero, suc, ◌≡◌, refl, subst, sym, ap, ◌∙◌, true, List, [], ◌∷◌, ◌++◌, length, length-append,
  ◌+◌, ◌<◌, arith,
}
use mathlib.Core.List.{append-nil, append_assoc}
use yep.Wut.State.{
  Tcb, State, Os, Outcome, returned, switched, died, exited, fault, queued, enqueue,
}
use yep.Wut.Schedule.{wut_yield}
use yep.Wut.Lookup.{Distinct, queued-enqueue, Distinct-enqueue}
use yep.Wut.Valid.{IsValid}
use yep.Wut.Exit.{set_context-switched}

module _ (s : State) (v : IsValid s) (cur q : ℕ) (qs : List ℕ)
    (running : s.queue ≡ cur ∷ q ∷ qs) where
  abbrev rotated : State
  rotated = record s { queue = q ∷ qs ++ cur ∷ [] }

  running-Distinct : Distinct (cur ∷ q ∷ qs)
  running-Distinct = subst Distinct running v.distinct

  pub queued-rotated : (j : ℕ) → queued j rotated.queue ≡ queued j s.queue
  unfolding queued enqueue
  queued-rotated j = rw running (ground (arith, queued-enqueue j cur qs))

  rotated-IsValid : IsValid rotated
  rotated-IsValid = record {
    ordered = v.ordered;
    distinct =
        unfold enqueue in Distinct-enqueue cur (q ∷ qs) running-Distinct.1 running-Distinct.0;
    ready = λ j h. v.ready j (sym (queued-rotated j) ∙ h);
    runs = v.runs;
    waited =
        λ j t w h x y. let (ne, nq, b) = v.waited j t w h x y in (ne, queued-rotated w ∙ nq, b);
  }

  -- In a valid state with a second ready thread, `wut_yield` moves the running thread to the back of
  -- the queue and switches to the thread that is next; no tcb changes, and the new state is valid.
  pub wut_yield-rotated :
      (os : Os)
      → os.switches ≡ true
      → (wut_yield os s ≡ switched (record s { queue = q ∷ qs ++ cur ∷ [] }))
        × IsValid (record s { queue = q ∷ qs ++ cur ∷ [] })
  unfolding wut_yield
  wut_yield-rotated os m =
      let (t, f, x) = v.ready cur (rw running (unfold queued in ground arith)) in
      let (c, k) = v.runs cur t f x in
      let next = set_context-switched os rotated q (qs ++ cur ∷ []) rotated-IsValid refl m in
      (ground (arith, running, f, k, next), rotated-IsValid)

-- The next threads yield in turn, `n` times.
unfoldable pub yields : Os → ℕ → State → Outcome
yields os zero s = switched s
yields os (suc n) s = elim (wut_yield os s) [
  | switched s' ↦ yields os n s'
  | returned r s' ↦ returned r s'
  | died ↦ died
  | exited ↦ exited
  | fault ↦ fault
]

yields-prefix :
    (os : Os) (xs ys : List ℕ) (ts : List Tcb)
    → os.switches ≡ true
    → 1 < length (xs ++ ys)
    → IsValid (record { queue = xs ++ ys; tcbs = ts })
    → yields os (length xs) (record { queue = xs ++ ys; tcbs = ts })
      ≡ switched (record { queue = ys ++ xs; tcbs = ts })
unfolding yields
yields-prefix os [] ys ts m h v = rw append-nil
yields-prefix os (x ∷ []) [] ts m h v = absurd (omega arith)
yields-prefix os (x ∷ []) (y ∷ ys) ts m h v =
    rw ((wut_yield-rotated (record { queue = x ∷ y ∷ ys; tcbs = ts }) v x y ys refl os m).0, yields)
yields-prefix os (x ∷ z ∷ xs) ys ts m h v =
    let (run, valid) =
      wut_yield-rotated (record { queue = x ∷ z ∷ xs ++ ys; tcbs = ts }) v x z (xs ++ ys) refl os
        m in
    let ih =
      yields-prefix os (z ∷ xs) (ys ++ x ∷ []) ts m (omega (arith, long))
        (rw (append_assoc xs ys (x ∷ [])) at valid) in
    rw (run, yields)
      (rw (append_assoc xs ys (x ∷ [])) (ih ∙ rw (append_assoc ys (x ∷ []) (z ∷ xs)) refl))
  where
    long : length (xs ++ (ys ++ x ∷ [])) ≡ length (xs ++ ys) + 1
    long = rw (← append_assoc xs ys (x ∷ [])) (length-append (xs ++ ys) (x ∷ []))

-- In a valid state with at least two ready threads, of which `xs` are the first, as many yields as
-- there are threads in `xs`, each by the thread then running, move these threads to the back of the
-- queue in their order and change nothing else: so the other ready threads come to the front one
-- after the other, and when `xs` is the whole queue each has had one turn and the state is as before.
pub yields_round :
    (os : Os) (s : State) (xs ys : List ℕ)
    → os.switches ≡ true
    → 1 < length s.queue
    → IsValid s
    → s.queue ≡ xs ++ ys
    → yields os (length xs) s ≡ switched (record s { queue = ys ++ xs })
yields_round os s xs ys m h v e =
    ap (λ q. yields os (length xs) (record s { queue = q })) e
    ∙ yields-prefix os xs ys s.tcbs m (subst (λ q. 1 < length q) e h)
        (subst (λ q. IsValid (record s { queue = q })) e v)
