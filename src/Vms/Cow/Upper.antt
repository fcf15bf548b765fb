-- ===== src/Vms/Cow/Upper.antt =====
-- vms/src/vms.c, `vms_fork_copy_on_write`: what is said of a space holds after a later change.
use yep.Common.{ℕ, zero, suc, ◌<◌, ◌≡◌, refl, sym, subst, ap, ◌∙◌, arith, Bool-cases, inl, inr}
use yep.Vms.Pte.{vms_pte_valid}
use yep.Vms.Fork.{num_pte_entries}
use yep.Vms.Entry.{fields}
use yep.Vms.Copy.Idle.{SameFlags}
use yep.Vms.Copy.Tree.{entry_of, next, Within, pages, weigh, entry_of-same, sum_entries-same}
use yep.Vms.Cow.Space.{Softer, Softer-cow, Softer-done, Tree, CowOf}

pub Tree-same :
    (T U V : ℕ → Type 0) (l : ℕ) (b b' : ℕ → ℕ) (t : ℕ)
    → Tree T U l b t
    → ((j : ℕ) → U j → V j)
    → ((j : ℕ) → U j → b' j ≡ b j)
    → Tree T V l b' t
Tree-same T U V zero b b' t w q same = w
Tree-same T U V (suc l) b b' t (c, w) q same = (
  λ j i. q j (c j i),
  λ i h v.
      let e = entry_of-same b b' t i h (λ j k. same j (c j k)) in
      subst (λ x. Tree T V l b' (next x)) (sym e)
        (Tree-same T U V l b b' (next (entry_of b t i)) (w i h (ap vms_pte_valid (sym e) ∙ v)) q
          same),
)

-- The copy stays a copy when the entries of level 0 are softened again.
pub CowOf-later :
    (T U Q : ℕ → Type 0) (l : ℕ) (b₀ b b' : ℕ → ℕ) (p c : ℕ)
    → Tree T U l b₀ p
    → Within Q l b c
    → ((j : ℕ) → Q j → b' j ≡ b j)
    → ((t : ℕ)
        → T t
        → (k : ℕ) → k < num_pte_entries
        → Softer (fields (entry_of b t k)) (fields (entry_of b' t k)))
    → CowOf l b₀ b p c
    → CowOf l b₀ b' p c
CowOf-later T U Q zero b₀ b b' p c t w same soft copy = λ k h.
    let (parent, child) = copy k h in
    (
      Softer-done (fields (entry_of b₀ p k)) (fields (entry_of b p k)) (fields (entry_of b' p k))
          parent (soft p t k h),
      ap fields (entry_of-same b b' c k h (λ j i. same j (w j i))) ∙ child,
    )
CowOf-later T U Q (suc l) b₀ b b' p c (ct, t) (cw, w) same soft copy = λ i h.
    let e = entry_of-same b b' c i h (λ j k. same j (cw j k)) in
    (
      λ v. e ∙ (copy i h).0 v,
      λ v.
          let (flags, below) = (copy i h).1 v in
          (
            subst (SameFlags (entry_of b₀ p i)) (sym e) flags,
            subst (λ x. CowOf l b₀ b' (next (entry_of b₀ p i)) (next x)) (sym e)
                (CowOf-later T U Q l b₀ b b' (next (entry_of b₀ p i)) (next (entry_of b c i))
                  (t i h v) (w i h (flags.valid ∙ v)) same soft below),
          ),
    )

-- It is also a copy of what was before, when only entries of level 0 had been softened.
pub CowOf-earlier :
    (T U : ℕ → Type 0) (l : ℕ) (b₀ b₁ b : ℕ → ℕ) (p c : ℕ)
    → Tree T U l b₀ p
    → ((j : ℕ) → U j → b₁ j ≡ b₀ j)
    → ((t : ℕ)
        → T t
        → (k : ℕ) → k < num_pte_entries
        → Softer (fields (entry_of b₀ t k)) (fields (entry_of b₁ t k)))
    → CowOf l b₁ b p c
    → CowOf l b₀ b p c
CowOf-earlier T U zero b₀ b₁ b p c t same soft copy = λ k h.
    let (parent, child) = copy k h in let s = Softer-cow (soft p t k h) in (parent ∙ s, child ∙ s)
CowOf-earlier T U (suc l) b₀ b₁ b p c (ct, t) same soft copy = λ i h.
    let e = entry_of-same b₀ b₁ p i h (λ j k. same j (ct j k)) in
    (
      λ v. (copy i h).0 (ap vms_pte_valid e ∙ v) ∙ e,
      λ v.
          let (flags, below) = (copy i h).1 (ap vms_pte_valid e ∙ v) in
          (
            subst (λ x. SameFlags x (entry_of b c i)) e flags,
            CowOf-earlier T U l b₀ b₁ b (next (entry_of b₀ p i)) (next (entry_of b c i)) (t i h v)
                same soft (subst (λ x. CowOf l b₁ b (next x) (next (entry_of b c i))) e below),
          ),
    )

-- The number of pages below a table depends on the tables above level 0.
pub pages-Tree :
    (T U : ℕ → Type 0) (l : ℕ) (b b' : ℕ → ℕ) (t : ℕ)
    → Tree T U l b t
    → ((j : ℕ) → U j → b' j ≡ b j)
    → pages l b' t ≡ pages l b t
unfolding pages
pages-Tree T U zero b b' t w same = refl
pages-Tree T U (suc l) b b' t (c, w) same =
    sum_entries-same (λ e. weigh (vms_pte_valid e) (pages l b (next e)))
      (λ e. weigh (vms_pte_valid e) (pages l b' (next e))) b b' t 0 num_pte_entries
      (λ k lo up.
        let e = entry_of-same b b' t k (omega arith) (λ j i. same j (c j i)) in
        ap (λ x. weigh (vms_pte_valid x) (pages l b' (next x))) e
        ∙ elim (Bool-cases (vms_pte_valid (entry_of b t k))) [
          | inl v ↦
              ap (weigh (vms_pte_valid (entry_of b t k)))
                (pages-Tree T U l b b' (next (entry_of b t k)) (w k (omega arith) v) same)
          | inr v ↦
              ap (λ x. weigh x (pages l b' (next (entry_of b t k)))) v
              ∙ ap (λ x. weigh x (pages l b (next (entry_of b t k)))) (sym v)
        ])
