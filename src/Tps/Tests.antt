-- ===== src/Tps/Tests.antt =====
-- A directory with one process, on which the theorems of the list of processes are applied.
use yep.Common.{ℕ, ◌≡◌, refl, none, some, List, [], ◌∷◌, arith, ltb, length, if◌then◌else◌}
use yep.Tps.Main.{Proc, show_process, tps}
use yep.Tps.Listing.{Named, status_text, show_process-Named, tps-AllNamed}

abbrev sh : List ℕ
sh = 115 ∷ 104 ∷ []

-- The entries are ".", "1" and "fs"; process 1 is named "sh".
abbrev proc : Proc
proc = record {
  entries = some ((46 ∷ []) ∷ (49 ∷ []) ∷ (102 ∷ 115 ∷ []) ∷ []);
  open_file = λ path. some 3;
  read = λ path. status_text sh (85 ∷ []);
  stack = λ d_name i. 7;
}

one_Named : Named proc (49 ∷ []) sh
one_Named = record {
  descripter = 2;
  opened = refl;
  rest = 85 ∷ [];
  text = refl;
  one_line = (ground arith, (ground arith, tt));
}

show_process-Named_example :
    show_process proc (49 ∷ []) ≡ (if ltb (length sh) 24 then some ((49 ∷ [], sh) ∷ []) else none)
show_process-Named_example = show_process-Named proc (49 ∷ []) sh one_Named

tps-AllNamed_example : tps proc ≡ some ((49 ∷ [], sh) ∷ [])
tps-AllNamed_example =
    tps-AllNamed proc ((46 ∷ []) ∷ (49 ∷ []) ∷ (102 ∷ 115 ∷ []) ∷ []) ((49 ∷ [], sh) ∷ []) refl refl
      (one_Named, omega arith, tt)
