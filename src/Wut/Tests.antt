-- ===== src/Wut/Tests.antt =====
-- Small states of wut/src/wut.c, on which the theorems of the thread library are applied.
use yep.Common.{
  ◌%◌, ℕ, ◌≡◌, ◌↔◌, ◌⊎◌, refl, true, false, none, some, [], ◌∷◌, arith, ◌==◌, if◌then◌else◌, inl,
  inr,
}
use yep.Wut.State.{
  Context, Tcb, State, Os, value, failure, returned, switched, fault, find_tcb, queued, front,
}
use yep.Wut.Lookup.{map_tcb}
use yep.Wut.Schedule.{wut_create}
use yep.Wut.Lifecycle.{wut_cancel, wut_join, wut_exit, join_resume}
use yep.Wut.Valid.{IsValid, Alive, Blocked}
use yep.Wut.Create.{Created, wut_create-Created}
use yep.Wut.Cancel.{Cancelled, wut_cancel-Cancelled, wut_cancel_refuses}
use yep.Wut.Exit.{Ended, wut_exit-Ended, wut_exit_last}
use yep.Wut.Cleanup.{wut_exit_unlinked}
use yep.Wut.Yield.{yields, yields_round}
use yep.Wut.Wait.{Joinable, wut_join-Blocked}
use yep.Wut.Handover.{wut_join_refuses, wut_join-wut_exit}

abbrev works : Os
works = record { allocates = true; maps = true; unmaps = true; switches = true }

abbrev linked : Context
linked = record { has_link = true }

abbrev unlinked : Context
unlinked = record { has_link = false }

-- A thread that nobody waits for.
abbrev thread : ℕ → Context → Tcb
thread id c = record {
  tid = id;
  context = some c;
  status = 0;
  init = true;
  waiter_id = none;
  waiting_id = none;
  has_exited = false;
}

abbrev ended : ℕ → ℕ → Tcb
ended id status = record {
  tid = id;
  context = some linked;
  status = status;
  init = true;
  waiter_id = none;
  waiting_id = none;
  has_exited = true;
}

abbrev one : State
one = record { queue = 0 ∷ []; tcbs = thread 0 linked ∷ [] }

abbrev two : State
two = record { queue = 0 ∷ 1 ∷ []; tcbs = thread 0 linked ∷ thread 1 linked ∷ [] }

abbrev three : State
three = record {
  queue = 0 ∷ 1 ∷ 2 ∷ [];
  tcbs = thread 0 unlinked ∷ thread 1 linked ∷ thread 2 linked ∷ [];
}

-- Thread 1 has exited with status 7.
abbrev joinable : State
joinable = record { queue = 0 ∷ []; tcbs = thread 0 linked ∷ ended 1 7 ∷ [] }

one-IsValid : IsValid one
unfolding find_tcb queued
one-IsValid = record {
  ordered = (omega arith, tt);
  distinct = (refl, tt);
  ready = λ q h. (thread 0 linked, ground (arith, h), refl);
  runs = λ q t h x. (linked, ground (arith, h));
  waited = λ q t w h x y. absurd (ground (arith, h, y));
}

two-IsValid : IsValid two
unfolding find_tcb queued
two-IsValid = record {
  ordered = (omega arith, (omega arith, tt));
  distinct = (refl, (refl, tt));
  ready = λ q h. if_ready q h;
  runs = λ q t h x. (linked, ground (arith, h));
  waited = λ q t w h x y. absurd (ground (arith, h, y));
}
  where
    if_ready :
        (q : ℕ)
        → queued q two.queue ≡ true
        → (t : Tcb) × (find_tcb q two.tcbs ≡ some t) × (t.has_exited ≡ false)
    if_ready q h = (thread q linked, ground (arith, h), refl)

three-IsValid : IsValid three
unfolding find_tcb queued
three-IsValid = record {
  ordered = (omega arith, (omega arith, (omega arith, tt)));
  distinct = (refl, (refl, (refl, tt)));
  ready = λ q h. (thread q (if q == 0 then unlinked else linked), ground (arith, h), ground arith);
  runs = λ q t h x. ((if q == 0 then unlinked else linked), ground (arith, h));
  waited = λ q t w h x y. absurd (ground (arith, h, y));
}

joinable-IsValid : IsValid joinable
unfolding find_tcb queued
joinable-IsValid = record {
  ordered = (omega arith, (omega arith, tt));
  distinct = (refl, tt);
  ready = λ q h. (thread 0 linked, ground (arith, h), refl);
  runs = λ q t h x. (linked, ground (arith, h, x));
  waited = λ q t w h x y. absurd (ground (arith, h, y));
}

wut_create-Created_example :
    (id : ℕ) × (s' : State) × (wut_create works one ≡ returned (value id) s') × Created one id s'
wut_create-Created_example = wut_create-Created one one-IsValid works refl refl

wut_cancel-Cancelled_example :
    (s' : State) × (wut_cancel works 1 two ≡ returned (value 0) s')
    × Cancelled two 1 (thread 1 linked) s'
unfolding find_tcb front
wut_cancel-Cancelled_example =
    wut_cancel-Cancelled two two-IsValid 1 (thread 1 linked) refl refl works 0 refl refl
      (omega arith)

wut_cancel_refuses_example :
    (wut_cancel works 0 two ≡ returned failure two) ↔ ((◌≡◌ {A = ℕ} 0 0) ⊎ ¬ Alive two 0)
unfolding front
wut_cancel_refuses_example = wut_cancel_refuses works 0 0 two refl

wut_exit-Ended_example :
    (s' : State) × (wut_exit works 300 two ≡ switched s')
    × Ended two 0 (λ u. record u { status = 300 % 256; has_exited = true }) (1 ∷ []) s'
unfolding find_tcb
wut_exit-Ended_example =
    wut_exit-Ended {s = two} two-IsValid {id = 0} {rest = 1 ∷ []} refl {t = thread 0 linked} refl
      works 300 1 [] linked refl refl refl refl

wut_exit_last_example : wut_exit works 5 one ≡ fault
unfolding find_tcb
wut_exit_last_example =
    wut_exit_last {s = one} one-IsValid {id = 0} {rest = []} refl {t = thread 0 linked} refl works 5
      refl refl

wut_exit_unlinked_example :
    (s' : State) × (wut_exit works 0 three ≡ switched s')
    × ((u : Tcb) × (find_tcb 1 s'.tcbs ≡ some u) × (u.has_exited ≡ true))
    × (queued 1 s'.queue ≡ false)
unfolding find_tcb
wut_exit_unlinked_example =
    wut_exit_unlinked {s = three} three-IsValid {id = 0} {rest = 1 ∷ 2 ∷ []} refl
      {t = thread 0 unlinked} refl works 0 1 2 [] unlinked refl refl refl refl refl

yields_round_example : yields works 2 three ≡ switched (record three { queue = 2 ∷ 0 ∷ 1 ∷ [] })
yields_round_example =
    yields_round works three (0 ∷ 1 ∷ []) (2 ∷ []) refl (omega arith) three-IsValid refl

one-Joinable : Joinable joinable 0 1 (ended 1 7)
unfolding find_tcb
one-Joinable = record { known = refl; other = omega arith; unwaited = refl; ready = inr refl }

two-Joinable : Joinable two 0 1 (thread 1 linked)
unfolding find_tcb queued
two-Joinable = record { known = refl; other = omega arith; unwaited = refl; ready = inl refl }

wut_join-Blocked_example :
    (s' : State) × (wut_join works 1 two ≡ switched s')
    × IsValid s'
    × (two.queue ≡ 0 ∷ s'.queue)
    × Blocked s' 1 0
    × ((k : ℕ)
        → find_tcb k s'.tcbs ≡ (
            if 1 == k
            then map_tcb (λ u. record u { waiter_id = some 0 }) (find_tcb k two.tcbs)
            else if 0 == k
            then map_tcb (λ u. record u { waiting_id = some 1 }) (find_tcb k two.tcbs)
            else find_tcb k two.tcbs))
unfolding front
wut_join-Blocked_example =
    wut_join-Blocked two two-IsValid 0 1 (thread 1 linked) refl two-Joinable works refl refl

wut_join-wut_exit_example :
    (s₁ : State) × (s₂ : State) × (s₃ : State) × (wut_join works 1 two ≡ switched s₁)
    × (wut_exit works 300 s₁ ≡ switched s₂)
    × (join_resume works 1 s₂ ≡ returned (value 44) s₃)
    × IsValid s₃
    × (s₃.queue ≡ 0 ∷ [])
    × (find_tcb 1 s₃.tcbs ≡ none)
wut_join-wut_exit_example =
    wut_join-wut_exit works two 0 1 300 (thread 1 linked) linked refl refl two-IsValid refl
      two-Joinable refl refl refl

wut_join_refuses_example :
    (wut_join works 0 two ≡ returned failure two) ↔ ¬ ((t : Tcb) × Joinable two 0 0 t)
unfolding front
wut_join_refuses_example = wut_join_refuses works 0 0 two refl
