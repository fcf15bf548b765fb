-- ===== src/Wut/Init.antt =====
-- wut/src/wut.c, `wut_init`: the state that the program starts from.
use yep.Common.{ℕ, ◌≡◌, refl, Bool, true, [], ◌∷◌, arith}
use yep.Wut.State.{State, Os, value, returned, find_tcb, queued}
use yep.Wut.Schedule.{main_tcb, wut_init}
use yep.Wut.Valid.{IsValid, Alive}

unfoldable pub initial : Bool → State
initial link = record { queue = 0 ∷ []; tcbs = main_tcb link ∷ [] }

pub initial-IsValid : (link : Bool) → IsValid (initial link)
unfolding initial main_tcb find_tcb queued
initial-IsValid link = record {
  ordered = (omega arith, tt);
  distinct = (refl, tt);
  ready = λ q h. (main_tcb link, ground (arith, h), refl);
  runs = λ q t h x. (record { has_link = link }, ground (arith, h));
  waited = λ q t w h x y. absurd (ground (arith, h, y));
}

pub wut_init-initial :
    (os : Os) (link : Bool) → os.maps ≡ true → wut_init os link ≡ returned (value 0) (initial link)
unfolding wut_init initial main_tcb
wut_init-initial os link m = ground (arith, m)

-- If the stack of the cleanup can be mapped, `wut_init` returns, whatever `getcontext` leaves in the
-- link, in a valid state in which thread 0 runs and every thread that is alive has the id 0.
pub wut_init-IsValid :
    (os : Os) (link : Bool)
    → os.maps ≡ true
    → (s : State) × (wut_init os link ≡ returned (value 0) s)
      × IsValid s
      × (s.queue ≡ 0 ∷ [])
      × ((id : ℕ) → Alive s id → id ≡ 0)
unfolding initial find_tcb main_tcb
wut_init-IsValid os link m = (
  initial link,
  wut_init-initial os link m,
  initial-IsValid link,
  refl,
  λ id a. let (t, f, x) = a in ground (arith, f),
)
