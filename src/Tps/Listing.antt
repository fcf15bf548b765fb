-- ===== src/Tps/Listing.antt =====
-- tps/src/main.c: which lines are printed.
use yep.Common.{
  ℕ, suc, ◌<◌, lt→ltb, ◌≡◌, ◌≢◌, refl, Bool, ◌==◌, ◌||◌, ap, ◌∙◌, true, false, none, some, List, [],
  ◌∷◌, ◌++◌, arith, ltb, length, if◌then◌else◌, Bool-cases, inl, inr,
}
use yep.Tps.Main.{
  Proc, is_process, directory, buf, read_into, bytes_from, copy_name, Line, show_process, show_all,
  tps,
}

abbrev pub NoNewline : List ℕ → Type 0
NoNewline [] = Unit
NoNewline (c ∷ cs) = (c ≢ 10) × NoNewline cs

-- The beginning of a status file, "Name:", a tab, the name and a newline.
abbrev pub status_text : List ℕ → List ℕ → List ℕ
status_text name rest = 78 ∷ 97 ∷ 109 ∷ 101 ∷ 58 ∷ 9 ∷ (name ++ 10 ∷ rest)

copy_name-read_into :
    (bs name rest : List ℕ)
    → NoNewline name
    → copy_name (read_into bs (name ++ 10 ∷ rest)) true
      ≡ (if ltb (length name) (length bs) then some name else none)
unfolding copy_name read_into
copy_name-read_into [] name rest h = ground arith
copy_name-read_into (b ∷ bs) [] rest h = ground arith
copy_name-read_into (b ∷ bs) (c ∷ cs) rest (ne, h) =
    let ih = copy_name-read_into bs cs rest h in ground (arith, ih, ne)

-- A process whose status file can be opened, under a descriptor other than 0, and names `name`.
pub record Named (p : Proc) (d name : List ℕ) : Type 0 where
  pub descripter : ℕ
  pub opened : p.open_file (directory d) ≡ some (suc descripter)
  pub rest : List ℕ
  pub text : p.read (directory d) ≡ status_text name rest
  pub one_line : NoNewline name

-- A whole buffer: the label takes six of the thirty bytes.
copy_name-status_text :
    (f : ℕ → ℕ) (name rest : List ℕ)
    → NoNewline name
    → copy_name (read_into (buf f) (status_text name rest)) false
      ≡ (if ltb (length name) 24 then some name else none)
unfolding buf read_into copy_name
copy_name-status_text f name rest h =
    let tail = copy_name-read_into (bytes_from f 6 24) name rest h in
    elim (Bool-cases (ltb (length name) 24)) [
      | inl e ↦ simp (tail, e) refl
      | inr e ↦ simp (tail, e) refl
    ]

-- For a process with a status file that names it, the line of the process has exactly that name if
-- the name has fewer than 24 bytes; if it is longer, the loop reads past the end of the buffer.
pub show_process-Named :
    (p : Proc) (d name : List ℕ)
    → Named p d name
    → show_process p d ≡ (if ltb (length name) 24 then some ((d, name) ∷ []) else none)
unfolding show_process
show_process-Named p d name n =
    let copied = copy_name-status_text (p.stack d) name n.rest n.one_line in
    elim (Bool-cases (ltb (length name) 24)) [
      | inl e ↦ ground (arith, n.opened, n.text, copied, e)
      | inr e ↦ ground (arith, n.opened, n.text, copied, e)
    ]

-- Every process of a directory, with its name.
abbrev pub AllNamed : Proc → List Line → Type 0
AllNamed p [] = Unit
AllNamed p ((d, name) ∷ more) = Named p d name × (length name < 24) × AllNamed p more

-- The name begins with one of the ten digits.
abbrev pub starts_with_digit : List ℕ → Bool
starts_with_digit [] = false
starts_with_digit (c ∷ cs) =
    c == 48
    || c == 49
    || c == 50
    || c == 51
    || c == 52
    || c == 53
    || c == 54
    || c == 55
    || c == 56
    || c == 57

is_process-starts_with_digit : (d : List ℕ) → is_process d ≡ starts_with_digit d
unfolding is_process
is_process-starts_with_digit [] = refl
is_process-starts_with_digit (c ∷ cs) = elim (Bool-cases (is_process (c ∷ cs))) [
  | inl e ↦ ground (arith, e)
  | inr e ↦ ground (arith, e)
]

-- The entries of a directory that are processes, whose names are numbers, in order.
abbrev pub processes : List (List ℕ) → List (List ℕ)
processes [] = []
processes (d ∷ ds) = if starts_with_digit d then d ∷ processes ds else processes ds

abbrev pub ids : List Line → List (List ℕ)
ids [] = []
ids ((d, name) ∷ more) = d ∷ ids more

show_all-AllNamed :
    (p : Proc) (ds : List (List ℕ)) (ls : List Line)
    → processes ds ≡ ids ls
    → AllNamed p ls
    → show_all p ds ≡ some ls
unfolding show_all
show_all-AllNamed p [] [] e h = refl
show_all-AllNamed p [] ((d, name) ∷ more) e h = absurd (ground (arith, e))
show_all-AllNamed p (d ∷ ds) ls e h = elim (Bool-cases (starts_with_digit d)) [
  | inr other ↦
      let rest = show_all-AllNamed p ds ls (ground (arith, e, other)) h in
      ground (arith, is_process-starts_with_digit d, other, rest)
  | inl is_one ↦ first ls is_one (ground (arith, e, is_one)) h (λ more. show_all-AllNamed p ds more)
]
  where
    first :
        (ls : List Line)
        → starts_with_digit d ≡ true
        → d ∷ processes ds ≡ ids ls
        → AllNamed p ls
        → ((more : List Line)
            → processes ds ≡ ids more
            → AllNamed p more
            → show_all p ds ≡ some more)
        → show_all p (d ∷ ds) ≡ some ls
    first [] is_one e h after = absurd (ground (arith, e))
    first ((d', name) ∷ more) is_one e (n, short, h) after =
        let same : d ≡ d' = ground (arith, e) in
        let rest = after more (ground (arith, e)) h in
        let line : show_process p d ≡ some ((d', name) ∷ []) =
          ap (show_process p) same
          ∙ show_process-Named p d' name n
          ∙ ap (λ b. if b then some ((d', name) ∷ []) else none) (lt→ltb (length name) 24 short) in
        ground (arith, is_process-starts_with_digit d, is_one, line, rest)

-- If /proc can be read, and the status file of each of its processes, which are the entries whose
-- name begins with a digit, can be opened and names the process with fewer than 24 bytes, exactly the
-- processes are printed, in the order of the directory, each with its name.
pub tps-AllNamed :
    (p : Proc) (ds : List (List ℕ)) (ls : List Line)
    → p.entries ≡ some ds
    → processes ds ≡ ids ls
    → AllNamed p ls
    → tps p ≡ some ls
unfolding tps
tps-AllNamed p ds ls e same h = ground (arith, e, show_all-AllNamed p ds ls same h)
