-- ===== src/Vms/Copy/Tree.antt =====
-- vms/src: the page tables and pages below a page table, and when one address space copies another.
use yep.Common.{
  ℕ, zero, suc, ◌+◌, ◌*◌, ◌≤◌, ◌<◌, ◌≡◌, refl, sym, subst, ap, ap₂, ◌∙◌, Bool, true, false, arith,
  Bool-cases, inl, inr,
}
use yep.Vms.Pte.{vms_pte_valid, vms_pte_get_ppn}
use yep.Vms.Machine.{page_size, load_bytes}
use yep.Vms.PageTable.{vms_ppn_to_page}
use yep.Vms.Fork.{num_pte_entries}
use yep.Vms.Copy.Memory.{InPage, load_bytes-same}
use yep.Vms.Copy.Idle.{SameFlags}

abbrev pub entry_of : (ℕ → ℕ) → ℕ → ℕ → ℕ
entry_of b table i = load_bytes 8 (table + 8 * i) b

abbrev pub next : ℕ → ℕ
next e = vms_ppn_to_page (vms_pte_get_ppn e)

-- The page tables down to level 0 and their pages, `l` levels of tables from `t` on, lie in `P`.
abbrev pub Within : (ℕ → Type 0) → ℕ → (ℕ → ℕ) → ℕ → Type 0
Within P zero b t = (j : ℕ) → InPage t j → P j
Within P (suc l) b t =
    ((j : ℕ) → InPage t j → P j)
    × ((i : ℕ)
        → i < num_pte_entries
        → vms_pte_valid (entry_of b t i) ≡ true
        → Within P l b (next (entry_of b t i)))

-- The table or page at `c` is a copy of the one at `p`: an entry that is not valid is the same, a
-- valid one has the same flags and points to a copy, and a page has the same bytes.
abbrev pub CopyOf : ℕ → (ℕ → ℕ) → ℕ → ℕ → Type 0
CopyOf zero b p c = (o : ℕ) → o < page_size → b (c + o) ≡ b (p + o)
CopyOf (suc l) b p c =
    (i : ℕ)
    → i < num_pte_entries
    → (vms_pte_valid (entry_of b p i) ≡ false → entry_of b c i ≡ entry_of b p i)
      × (vms_pte_valid (entry_of b p i) ≡ true
          → SameFlags (entry_of b p i) (entry_of b c i)
            × CopyOf l b (next (entry_of b p i)) (next (entry_of b c i)))

-- A sum over `n` entries from `i` on.
unfoldable pub sum_entries : (ℕ → ℕ) → (ℕ → ℕ) → ℕ → ℕ → ℕ → ℕ
sum_entries f b t i zero = 0
sum_entries f b t i (suc n) = f (entry_of b t i) + sum_entries f b t (i + 1) n

-- What a valid entry counts for, with `n` pages below its own.
abbrev pub weigh : Bool → ℕ → ℕ
weigh true n = suc n
weigh false n = 0

-- The pages and tables below a table, without itself.
unfoldable pub pages : ℕ → (ℕ → ℕ) → ℕ → ℕ
pages zero b t = 0
pages (suc l) b t =
    sum_entries (λ e. weigh (vms_pte_valid e) (pages l b (next e))) b t 0 num_pte_entries

pub cover :
    (P : ℕ → Type 0) (l : ℕ) (b : ℕ → ℕ) (t : ℕ) → Within P l b t → (j : ℕ) → InPage t j → P j
cover P zero b t w = w
cover P (suc l) b t w = w.0

pub entry_of-same :
    (b b' : ℕ → ℕ) (t i : ℕ)
    → i < num_pte_entries
    → ((j : ℕ) → InPage t j → b' j ≡ b j)
    → entry_of b' t i ≡ entry_of b t i
entry_of-same b b' t i h same =
    load_bytes-same 8 (t + 8 * i) (t + 8 * i) b b'
      (λ o k. same (t + 8 * i + o) (omega arith, omega arith))

pub Within-same :
    (P Q : ℕ → Type 0) (l : ℕ) (b b' : ℕ → ℕ) (t : ℕ)
    → Within P l b t
    → ((j : ℕ) → P j → Q j)
    → ((j : ℕ) → P j → b' j ≡ b j)
    → Within Q l b' t
Within-same P Q zero b b' t w q same = λ j i. q j (w j i)
Within-same P Q (suc l) b b' t (c, w) q same = (
  λ j i. q j (c j i),
  λ i h v.
      let e = entry_of-same b b' t i h (λ j k. same j (c j k)) in
      subst (λ x. Within Q l b' (next x)) (sym e)
        (Within-same P Q l b b' (next (entry_of b t i)) (w i h (ap vms_pte_valid (sym e) ∙ v)) q
          same),
)

pub CopyOf-same :
    (P Q : ℕ → Type 0) (l : ℕ) (b b' : ℕ → ℕ) (p c : ℕ)
    → Within P l b p
    → Within Q l b c
    → ((j : ℕ) → P j → b' j ≡ b j)
    → ((j : ℕ) → Q j → b' j ≡ b j)
    → CopyOf l b p c
    → CopyOf l b' p c
CopyOf-same P Q zero b b' p c wp wc sp sc copy = λ o h.
    sc (c + o) (wc (c + o) (omega arith, omega arith))
    ∙ copy o h
    ∙ sym (sp (p + o) (wp (p + o) (omega arith, omega arith)))
CopyOf-same P Q (suc l) b b' p c (cp, wp) (cc, wc) sp sc copy = λ i h.
    let ep = entry_of-same b b' p i h (λ j k. sp j (cp j k)) in
    let ec = entry_of-same b b' c i h (λ j k. sc j (cc j k)) in
    (
      λ v. ec ∙ (copy i h).0 (ap vms_pte_valid (sym ep) ∙ v) ∙ sym ep,
      λ v.
          let v' = ap vms_pte_valid (sym ep) ∙ v in
          let (flags, below) = (copy i h).1 v' in
          let r =
            CopyOf-same P Q l b b' (next (entry_of b p i)) (next (entry_of b c i)) (wp i h v')
              (wc i h (flags.valid ∙ v')) sp sc below in
          (
            subst (λ x. SameFlags x (entry_of b' c i)) (sym ep)
                (subst (SameFlags (entry_of b p i)) (sym ec) flags),
            subst (λ x. CopyOf l b' (next x) (next (entry_of b' c i))) (sym ep)
                (subst (λ x. CopyOf l b' (next (entry_of b p i)) (next x)) (sym ec) r),
          ),
    )

pub sum_entries-same :
    (f f' : ℕ → ℕ) (b b' : ℕ → ℕ) (t i n : ℕ)
    → ((k : ℕ) → i ≤ k → k < i + n → f' (entry_of b' t k) ≡ f (entry_of b t k))
    → sum_entries f' b' t i n ≡ sum_entries f b t i n
unfolding sum_entries
sum_entries-same f f' b b' t i zero h = refl
sum_entries-same f f' b b' t i (suc n) h =
    ap₂ (λ x y. x + y) (h i (omega arith) (omega arith))
      (sum_entries-same f f' b b' t (i + 1) n (λ k l u. h k (omega arith) (omega arith)))

pub pages-same :
    (P : ℕ → Type 0) (l : ℕ) (b b' : ℕ → ℕ) (t : ℕ)
    → Within P l b t
    → ((j : ℕ) → P j → b' j ≡ b j)
    → pages l b' t ≡ pages l b t
unfolding pages
pages-same P zero b b' t w same = refl
pages-same P (suc l) b b' t (c, w) same =
    sum_entries-same (λ e. weigh (vms_pte_valid e) (pages l b (next e)))
      (λ e. weigh (vms_pte_valid e) (pages l b' (next e))) b b' t 0 num_pte_entries
      (λ k lo up.
        let e = entry_of-same b b' t k (omega arith) (λ j i. same j (c j i)) in
        ap (λ x. weigh (vms_pte_valid x) (pages l b' (next x))) e
        ∙ elim (Bool-cases (vms_pte_valid (entry_of b t k))) [
          | inl v ↦
              let below = pages-same P l b b' (next (entry_of b t k)) (w k (omega arith) v) same in
              ap (weigh (vms_pte_valid (entry_of b t k))) below
          | inr v ↦
              ap (λ x. weigh x (pages l b' (next (entry_of b t k)))) v
              ∙ ap (λ x. weigh x (pages l b (next (entry_of b t k)))) (sym v)
        ])
