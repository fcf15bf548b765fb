-- ===== src/Tps/Main.antt =====
-- tps/src/main.c: `main`, with /proc as a parameter. Strings are the bytes before the NUL.
use yep.Common.{
  ℕ, zero, suc, ◌+◌, Bool, true, false, ◌&&◌, Option, none, some, List, [], ◌∷◌, ◌++◌, ◌==◌, ltb,
  set, if◌then◌else◌,
}

-- What `opendir` and `readdir`, `open` (`none` for -1) and `read` answer, by the path, and what the
-- bytes of `buf` are before the call of `read`.
pub record Proc : Type 0 where
  pub entries : Option (List (List ℕ))
  pub open_file : List ℕ → Option ℕ
  pub read : List ℕ → List ℕ
  pub stack : List ℕ → ℕ → ℕ

-- The test of `d_name[0]`.
unfoldable pub is_process : List ℕ → Bool
is_process [] = false
is_process (ascii ∷ cs) = ltb 47 ascii && ltb ascii 58

-- "/proc/", the name and "/status"
unfoldable pub directory : List ℕ → List ℕ
directory d_name =
    47 ∷ 112 ∷ 114 ∷ 111 ∷ 99 ∷ 47 ∷ d_name ++ 47 ∷ 115 ∷ 116 ∷ 97 ∷ 116 ∷ 117 ∷ 115 ∷ []

abbrev pub bytes_from : (ℕ → ℕ) → ℕ → ℕ → List ℕ
bytes_from f i zero = []
bytes_from f i (suc n) = f i ∷ bytes_from f (i + 1) n

-- `buf` after its declaration and `buf[0] = '\0'`
unfoldable pub buf : (ℕ → ℕ) → List ℕ
buf f = set (bytes_from f 0 30) 0 0

-- `read` into a buffer: as many bytes as there are and as have room.
unfoldable pub read_into : List ℕ → List ℕ → List ℕ
read_into [] cs = []
read_into (b ∷ bs) [] = b ∷ bs
read_into (b ∷ bs) (c ∷ cs) = c ∷ read_into bs cs

-- One character of the loop, before the rest of the name.
abbrev pub write_char : Bool → ℕ → Option (List ℕ) → Option (List ℕ)
write_char boo c none = none
write_char boo c (some name) = some (if boo then c ∷ name else name)

-- The loop over `buf` that copies `proc_name`, or `none` where it reads past the buffer.
unfoldable pub copy_name : List ℕ → Bool → Option (List ℕ)
copy_name [] boo = none
copy_name (c ∷ cs) boo =
    let rest = copy_name cs (if c == 9 then true else boo) in
    if c == 10 then some [] else write_char boo c rest

abbrev pub Line : Type 0
Line = List ℕ × List ℕ

abbrev pub print_line : List ℕ → Option (List ℕ) → Option (List Line)
print_line d_name none = none
print_line d_name (some proc_name) = some ((d_name, proc_name) ∷ [])

-- What is printed for a process. The test `if (descripter)` takes -1 as it takes a descriptor.
unfoldable pub show_process : Proc → List ℕ → Option (List Line)
show_process p d_name = elim (p.open_file (directory d_name)) [
  | none ↦ print_line d_name (copy_name (buf (p.stack d_name)) false)
  | some zero ↦ some []
  | some (suc n) ↦
      print_line d_name
        (copy_name (read_into (buf (p.stack d_name)) (p.read (directory d_name))) false)
]

abbrev pub append_lines : Option (List Line) → Option (List Line) → Option (List Line)
append_lines none more = none
append_lines (some ls) none = none
append_lines (some ls) (some ms) = some (ls ++ ms)

unfoldable pub show_all : Proc → List (List ℕ) → Option (List Line)
show_all p [] = some []
show_all p (d ∷ ds) =
    let rest = show_all p ds in if is_process d then append_lines (show_process p d) rest else rest

-- The lines under the heading, in order; `none` where some loop reads past the buffer. Without the
-- directory there are none, and the status is 0 all the same.
unfoldable pub tps : Proc → Option (List Line)
tps p = elim p.entries [ none ↦ some [] | some ds ↦ show_all p ds ]
