-- ===== src/Wut/Depart.antt =====
-- What wut/src/wut.c does whenever a thread stops, by an exit, a return or a cancellation: it
-- leaves the ready queue and its waiter comes back.
use yep.Common.{
  ℕ, ◌≡◌, ◌≢◌, refl, sym, ◌∙◌, Bool, true, false, ◌||◌, Option, none, some, List, [], ◌∷◌, ◌++◌,
  arith, ◌==◌, if◌then◌else◌, Bool-cases, Option-cases, inl, inr,
}
use mathlib.Core.List.{append-nil}
use yep.Wut.State.{Context, Tcb, State, find_tcb, queued, wake}
use yep.Wut.Lookup.{From, Distinct, queued-enqueue, Distinct-enqueue}
use yep.Wut.Valid.{Alive, Blocked, IsValid}

abbrev pub woken : Option ℕ → ℕ → Bool
woken none j = false
woken (some w) j = w == j

pub queued-wake :
    (o : Option ℕ) (ts : List Tcb) (qs : List ℕ) (j : ℕ)
    → ((w : ℕ) → o ≡ some w → find_tcb w ts ≢ none)
    → queued j (wake o ts qs) ≡ (queued j qs || woken o j)
unfolding wake
queued-wake none ts qs j h = ground arith
queued-wake (some w) ts qs j h = ground (arith, h w refl, queued-enqueue j w qs)

pub Distinct-wake :
    (o : Option ℕ) (ts : List Tcb) (qs : List ℕ)
    → ((w : ℕ) → o ≡ some w → queued w qs ≡ false)
    → Distinct qs
    → Distinct (wake o ts qs)
unfolding wake
Distinct-wake none ts qs h d = d
Distinct-wake (some w) ts qs h d = elim (Option-cases (find_tcb w ts)) [
  | inl e ↦ rw (e, wake) d
  | inr (t, e) ↦ rw (e, wake) (Distinct-enqueue w qs d (h w refl))
]

pub woken-eq : (o : Option ℕ) (j : ℕ) → woken o j ≡ true → o ≡ some j
woken-eq none j h = ground arith
woken-eq (some w) j h = ground arith

-- The waiter, as the end of the queue.
abbrev pub waiter_list : Option ℕ → List ℕ
waiter_list none = []
waiter_list (some w) = w ∷ []

pub wake-append :
    (o : Option ℕ) (ts : List Tcb) (qs : List ℕ)
    → ((w : ℕ) → o ≡ some w → find_tcb w ts ≢ none)
    → wake o ts qs ≡ qs ++ waiter_list o
unfolding wake
wake-append none ts qs h = sym (append-nil qs)
wake-append (some w) ts qs h = ground (arith, h w refl)

-- Threads that a departure leaves alone but for a waiter that may be cleared.
pub record Same (u u' : Tcb) : Type 0 where
  pub exits : u'.has_exited ≡ u.has_exited
  pub context : u'.context ≡ u.context
  pub waiting : u'.waiting_id ≡ u.waiting_id
  pub waiter : (w : ℕ) → u'.waiter_id ≡ some w → u.waiter_id ≡ some w

-- Thread `e`, which was `t`, has stopped, and the others are the same; `left` is the queue without
-- it.
pub record Stopped (s : State) (e : ℕ) (t : Tcb) (ts : List Tcb) (left : List ℕ) : Type 0 where
  pub was : find_tcb e s.tcbs ≡ some t
  pub alive : t.has_exited ≡ false
  pub ordered : From 0 ts
  pub gone : (u : Tcb) → find_tcb e ts ≡ some u → u.has_exited ≡ true
  pub back :
      (j : ℕ) (u' : Tcb)
      → e ≢ j
      → find_tcb j ts ≡ some u'
      → (u : Tcb) × (find_tcb j s.tcbs ≡ some u) × Same u u'
  pub forth :
      (j : ℕ) (u : Tcb)
      → e ≢ j
      → find_tcb j s.tcbs ≡ some u
      → (u' : Tcb) × (find_tcb j ts ≡ some u') × Same u u'
  pub unwaited :
      (j : ℕ) (u : Tcb)
      → e ≢ j
      → find_tcb j ts ≡ some u
      → u.has_exited ≡ false
      → u.waiter_id ≢ some e
  pub distinct : Distinct left
  pub removed : (j : ℕ) → queued j left ≡ (if e == j then false else queued j s.queue)

module _ {s : State} {e : ℕ} {t : Tcb} {ts : List Tcb} {left : List ℕ} (v : IsValid s)
    (st : Stopped s e t ts left) (us : List Tcb)
    (wakes : (w : ℕ) → t.waiter_id ≡ some w → find_tcb w us ≢ none) where
  blocked : (w : ℕ) → t.waiter_id ≡ some w → Blocked s e w
  blocked w h = v.waited e t w st.was st.alive h

  departed : State
  departed = record { queue = wake t.waiter_id us left; tcbs = ts }

  departed-queued : (j : ℕ) → queued j departed.queue ≡ (queued j left || woken t.waiter_id j)
  unfolding departed
  departed-queued j = queued-wake t.waiter_id us left j wakes

  others : (q : ℕ) (u : Tcb) → find_tcb q ts ≡ some u → u.has_exited ≡ false → e ≢ q
  others q u h x i = ground (arith, st.gone u (rw i h))

  -- A thread that waits for another one than `e` is not woken.
  not_woken :
      (q w : ℕ) (b : Tcb)
      → e ≢ q
      → find_tcb w s.tcbs ≡ some b
      → b.waiting_id ≡ some q
      → woken t.waiter_id w ≡ false
  not_woken q w b ne g on = elim (Bool-cases (woken t.waiter_id w)) [
    | inl yes_woken ↦
        let (nw, nq, (b', g', z, on')) = blocked w (woken-eq t.waiter_id w yes_woken) in
        absurd (ground (arith, ne, g, g', on, on'))
    | inr fine ↦ fine
  ]

  departed_ready : (q : ℕ) → queued q departed.queue ≡ true → Alive departed q
  unfolding departed
  departed_ready q h = elim (Bool-cases (queued q left)) [
    | inl stays ↦
        let (u, f, x) = v.ready q (ground (arith, st.removed q)) in
        let (u', f', same) = st.forth q u (λ i. ground (arith, st.removed q)) f in
        (u', f', same.exits ∙ x)
    | inr comes ↦
        let (ne, nq, (u, f, x, on)) =
          blocked q (woken-eq t.waiter_id q (ground (arith, departed-queued q))) in
        let (u', f', same) = st.forth q u (λ i. ne (sym i)) f in (u', f', same.exits ∙ x)
  ]

  departed_runs :
      (q : ℕ) (u : Tcb)
      → find_tcb q departed.tcbs ≡ some u
      → u.has_exited ≡ false
      → (c : Context) × (u.context ≡ some c)
  unfolding departed
  departed_runs q u h x =
      let (u₀, f, same) = st.back q u (others q u h x) h in
      let (c, k) = v.runs q u₀ f (sym same.exits ∙ x) in (c, same.context ∙ k)

  departed_waited :
      (q : ℕ) (u : Tcb) (w : ℕ)
      → find_tcb q departed.tcbs ≡ some u
      → u.has_exited ≡ false
      → u.waiter_id ≡ some w
      → Blocked departed q w
  unfolding departed
  departed_waited q u w h x y =
      let apart = others q u h x in
      let (u₀, f, same) = st.back q u apart h in
      let (ne, nq, (b, g, z, on)) = v.waited q u₀ w f (sym same.exits ∙ x) (same.waiter w y) in
      let (b', g', like) = st.forth w b (λ i. st.unwaited q u apart h x (rw i y)) g in
      (
        ne,
        ground (arith, departed-queued w, st.removed w, not_woken q w b apart g on),
        (b', g', like.exits ∙ z, like.waiting ∙ on),
      )

  pub depart-IsValid : IsValid (record { queue = wake t.waiter_id us left; tcbs = ts })
  unfolding departed
  depart-IsValid = record {
    ordered = st.ordered;
    distinct =
        Distinct-wake t.waiter_id us left (λ w h. ground (arith, blocked w h, st.removed w))
          st.distinct;
    ready = departed_ready;
    runs = departed_runs;
    waited = departed_waited;
  }
