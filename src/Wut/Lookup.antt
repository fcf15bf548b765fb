-- ===== src/Wut/Lookup.antt =====
-- Laws of the searches and updates of wut/src/wut.c's two lists.
use yep.Common.{
  ℕ, suc, ◌≤◌, ◌<◌, ◌≡◌, refl, false, ◌||◌, Option, none, some, List, [], ◌∷◌, arith, ◌==◌,
  if◌then◌else◌, Bool-cases, inl, inr,
}
use yep.Wut.State.{Tcb, find_tcb, modify_tcb, remove_tcb, queued, dequeue, enqueue}

-- The tcbs stand in the order of their ids, none below `lo` and none twice.
abbrev pub From : ℕ → List Tcb → Type 0
From lo [] = Unit
From lo (t ∷ ts) = (lo ≤ t.tid) × From (suc t.tid) ts

-- No id stands twice.
abbrev pub Distinct : List ℕ → Type 0
Distinct [] = Unit
Distinct (q ∷ qs) = (queued q qs ≡ false) × Distinct qs

abbrev pub map_tcb : (Tcb → Tcb) → Option Tcb → Option Tcb
map_tcb f none = none
map_tcb f (some t) = some (f t)

pub find_tcb-tid : (j : ℕ) (ts : List Tcb) {t : Tcb} → find_tcb j ts ≡ some t → t.tid ≡ j
unfolding find_tcb
find_tcb-tid j [] h = ground arith
find_tcb-tid j (u ∷ ts) {t} h = ground (arith, find_tcb-tid j ts {t = t})

pub find_tcb-modify_tcb :
    (j i : ℕ) (f : Tcb → Tcb) (ts : List Tcb)
    → ((t : Tcb) → (f t).tid ≡ t.tid)
    → find_tcb j (modify_tcb i f ts) ≡ (if i == j then map_tcb f (find_tcb j ts) else find_tcb j ts)
unfolding find_tcb modify_tcb
find_tcb-modify_tcb j i f [] keep = ground arith
find_tcb-modify_tcb j i f (t ∷ ts) keep = ground (arith, keep t, find_tcb-modify_tcb j i f ts keep)

pub From-le : (a b : ℕ) (ts : List Tcb) → a ≤ b → From b ts → From a ts
From-le a b [] h s = tt
From-le a b (t ∷ ts) h s = (omega arith, s.1)

pub find_tcb-below : (j lo : ℕ) (ts : List Tcb) → From lo ts → j < lo → find_tcb j ts ≡ none
unfolding find_tcb
find_tcb-below j lo [] s h = refl
find_tcb-below j lo (t ∷ ts) s h = ground (arith, s.0, find_tcb-below j (suc t.tid) ts s.1)

pub From-modify_tcb :
    (lo i : ℕ) (f : Tcb → Tcb) (ts : List Tcb)
    → ((t : Tcb) → (f t).tid ≡ t.tid)
    → From lo ts
    → From lo (modify_tcb i f ts)
unfolding modify_tcb
From-modify_tcb lo i f [] keep s = tt
From-modify_tcb lo i f (t ∷ ts) keep s = elim (Bool-cases (t.tid == i)) [
  | inl e ↦ rw e (rw (keep t) s)
  | inr e ↦ rw e (s.0, From-modify_tcb (suc t.tid) i f ts keep s.1)
]

pub find_tcb-remove_tcb :
    (j i lo : ℕ) (ts : List Tcb)
    → From lo ts
    → find_tcb j (remove_tcb i ts) ≡ (if i == j then none else find_tcb j ts)
unfolding find_tcb remove_tcb
find_tcb-remove_tcb j i lo [] s = ground arith
find_tcb-remove_tcb j i lo (t ∷ ts) s =
    ground
      (arith, s.0, find_tcb-remove_tcb j i (suc t.tid) ts s.1, find_tcb-below j (suc t.tid) ts s.1)

pub From-remove_tcb : (lo i : ℕ) (ts : List Tcb) → From lo ts → From lo (remove_tcb i ts)
unfolding remove_tcb
From-remove_tcb lo i [] s = tt
From-remove_tcb lo i (t ∷ ts) s = elim (Bool-cases (t.tid == i)) [
  | inl e ↦ rw e (From-le lo (suc t.tid) ts (omega (arith, s.0)) s.1)
  | inr e ↦ rw e (s.0, From-remove_tcb (suc t.tid) i ts s.1)
]

pub queued-enqueue : (j i : ℕ) (qs : List ℕ) → queued j (enqueue i qs) ≡ (queued j qs || i == j)
unfolding queued enqueue
queued-enqueue j i [] = ground arith
queued-enqueue j i (q ∷ qs) = ground (arith, queued-enqueue j i qs)

pub Distinct-enqueue :
    (i : ℕ) (qs : List ℕ) → Distinct qs → queued i qs ≡ false → Distinct (enqueue i qs)
unfolding queued enqueue
Distinct-enqueue i [] d h = (refl, tt)
Distinct-enqueue i (q ∷ qs) d h =
    (ground (arith, d.0, queued-enqueue q i qs), Distinct-enqueue i qs d.1 (ground arith))

pub queued-dequeue :
    (j i : ℕ) (qs : List ℕ)
    → Distinct qs
    → queued j (dequeue i qs) ≡ (if i == j then false else queued j qs)
unfolding queued dequeue
queued-dequeue j i [] d = ground arith
queued-dequeue j i (q ∷ qs) d = ground (arith, d.0, queued-dequeue j i qs d.1)

pub Distinct-dequeue : (i : ℕ) (qs : List ℕ) → Distinct qs → Distinct (dequeue i qs)
unfolding queued dequeue
Distinct-dequeue i [] d = tt
Distinct-dequeue i (q ∷ qs) d = elim (Bool-cases (q == i)) [
  | inl e ↦ rw e d.1
  | inr e ↦ rw e (ground (arith, d.0, queued-dequeue q i qs d.1), Distinct-dequeue i qs d.1)
]

-- The search of `wut_cancel` before the removal only skips a removal of nothing.
pub dequeue-absent : (i : ℕ) (qs : List ℕ) → queued i qs ≡ false → dequeue i qs ≡ qs
unfolding queued dequeue
dequeue-absent i [] h = refl
dequeue-absent i (q ∷ qs) h = ground (arith, dequeue-absent i qs)
