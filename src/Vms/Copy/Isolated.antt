-- ===== src/Vms/Copy/Isolated.antt =====
-- vms/src: what parent and child read and write after `vms_fork_copy`.
use yep.Common.{
  ℕ, true, ◌+◌, ◌%◌, ◌^◌, ◌≤◌, ◌<◌, ◌≡◌, refl, sym, subst, ap, ◌∙◌, arith, inl, inr, ◌-◌, ltb,
  ltb→lt, ltb-false→le, Bool-cases,
}
use yep.Vms.Pte.{vms_pte_write}
use yep.Vms.Machine.{Machine, done, page_size, load_bytes}
use yep.Vms.Mmu.{vms_set_root_page_table, vms_read, vms_write}
use yep.Vms.Access.{IsMapped, physical, stored, vms_write-stored, store_bytes-outside}
use yep.Vms.Fork.{vms_fork_copy}
use yep.Vms.Copy.Memory.{Held, Fresh, Held-Fresh, load_bytes-same}
use yep.Vms.Copy.Tree.{next, Within, CopyOf, Within-same}
use yep.Vms.Copy.Whole.{Space, vms_fork_copy-CopyOf}
use yep.Vms.Copy.Route.{
  entry₀, Route, Route-IsMapped, vms_read-Route, physical-next, Route-same, Route-CopyOf,
}

-- The address is mapped with permission to read, and its word lies in one page.
pub record Readable (m : Machine) (va : ℕ) : Type 0 where
  pub route : Route m.bytes m.root va
  pub fits : va % 2 ^ 12 + 4 ≤ page_size

-- There is also permission to write.
pub record Writable (m : Machine) (va : ℕ) : Type 0 where
  pub readable : Readable m va
  pub writes : vms_pte_write (entry₀ m.bytes m.root va) ≡ true

Writable-IsMapped : (m : Machine) (va : ℕ) → Writable m va → IsMapped m va
Writable-IsMapped m va w = Route-IsMapped m va w.readable.route w.writes

abbrev pub word_at : Machine → ℕ → ℕ
word_at m va = load_bytes 4 (physical m va) m.bytes

word-read : (m : Machine) (va : ℕ) → Readable m va → vms_read va m ≡ done (word_at m va) m
word-read m va w = vms_read-Route m va w.route

-- The word's bytes are in the space.
word-Within :
    (P : ℕ → Type 0) (m : Machine) (va : ℕ)
    → Within P 3 m.bytes m.root
    → Readable m va
    → (o : ℕ) → o < 4
    → P (physical m va + o)
word-Within P m va tree w o h =
    let (r, e, page) = Route-same P m.bytes m.bytes m.root va tree (λ j k. refl) w.route in
    subst (λ x. P (x + o)) (sym (physical-next m va))
      (page (next (entry₀ m.bytes m.root va) + va % 2 ^ 12 + o)
        (omega arith, omega (arith, w.fits)))

-- Where no byte of a space has changed, its words are as they were.
word-same :
    (P : ℕ → Type 0) (m m' : Machine) (va : ℕ)
    → Within P 3 m.bytes m.root
    → m'.root ≡ m.root
    → ((j : ℕ) → P j → m'.bytes j ≡ m.bytes j)
    → Readable m va
    → Readable m' va
      × (word_at m' va ≡ word_at m va)
      × (vms_pte_write (entry₀ m'.bytes m'.root va) ≡ vms_pte_write (entry₀ m.bytes m.root va))
word-same P m m' va tree root same w =
    let (r, e, page) = Route-same P m.bytes m'.bytes m.root va tree same w.route in
    let place : physical m' va ≡ physical m va =
      physical-next m' va
      ∙ ap (λ t. next (entry₀ m'.bytes t va) + va % 2 ^ 12) root
      ∙ ap (λ x. next x + va % 2 ^ 12) e
      ∙ sym (physical-next m va) in
    (
      record { route = subst (λ t. Route m'.bytes t va) (sym root) r; fits = w.fits },
      load_bytes-same 4 (physical m va) (physical m' va) m.bytes m'.bytes (λ o h.
          ap (λ x. m'.bytes (x + o)) place
          ∙ same (physical m va + o) (word-Within P m va tree w o h)),
      ap (λ t. vms_pte_write (entry₀ m'.bytes t va)) root ∙ ap vms_pte_write e,
    )

-- A word of a space is in its copy.
word-CopyOf :
    (m : Machine) (child va : ℕ)
    → CopyOf 3 m.bytes m.root child
    → Readable m va
    → Readable (record m { root = child }) va
      × (word_at (record m { root = child }) va ≡ word_at m va)
      × (vms_pte_write (entry₀ m.bytes child va) ≡ vms_pte_write (entry₀ m.bytes m.root va))
word-CopyOf m child va copy w =
    let m' : Machine = record m { root = child } in
    let (r, flags, page) = Route-CopyOf m.bytes m.root child va copy w.route in
    (
      record { route = r; fits = w.fits },
      load_bytes-same 4 (physical m va) (physical m' va) m.bytes m.bytes (λ o h.
          ap (λ x. m.bytes (x + o)) (physical-next m' va)
          ∙ ap m.bytes (omega arith)
          ∙ page (va % 2 ^ 12 + o) (omega (arith, w.fits))
          ∙ ap m.bytes (omega arith)
          ∙ ap (λ x. m.bytes (x + o)) (sym (physical-next m va))),
      flags.write,
    )

pub set_root-done :
    (m : Machine) (t : ℕ)
    → t % page_size ≡ 0
    → vms_set_root_page_table t m ≡ done tt (record m { root = t })
unfolding vms_set_root_page_table
set_root-done m t h = ground (arith, h)

-- A write through one space leaves the bytes of another.
write-kept :
    (P Q : ℕ → Type 0) (m : Machine) (va v : ℕ)
    → Within P 3 m.bytes m.root
    → Readable m va
    → ((j : ℕ) → P j → Q j → ⊥)
    → (j : ℕ) → Q j
    → (stored m va v).bytes j ≡ m.bytes j
write-kept P Q m va v tree w apart j q =
    store_bytes-outside 4 (physical m va) v m.bytes j (elim (Bool-cases (ltb j (physical m va))) [
      | inl e ↦ inl (ltb→lt j (physical m va) e)
      | inr e ↦ elim (Bool-cases (ltb j (physical m va + 4))) [
        | inr u ↦ inr (ltb-false→le j (physical m va + 4) u)
        | inl u ↦
            let lo = ltb-false→le j (physical m va) e in
            let up = ltb→lt j (physical m va + 4) u in
            let o = j - physical m va in
            let there : physical m va + o ≡ j = omega (arith, lo) in
            absurd (apart j (subst P there (word-Within P m va tree w o (omega (arith, lo, up)))) q)
      ]
    ])

-- What is known after a fork: the machine with the parent's root, the same with the child's, and the
-- two spaces.
record Forked (m m' : Machine) (child : ℕ) : Type 0 where
  runs : vms_fork_copy m ≡ done child m'
  root : m'.root ≡ m.root
  aligned : child % page_size ≡ 0
  parent : Within (Held m) 3 m'.bytes m'.root
  kept : (j : ℕ) → Held m j → m'.bytes j ≡ m.bytes j
  fresh : Within (Fresh m) 3 m'.bytes child
  copy : CopyOf 3 m'.bytes m'.root child

fork : (m : Machine) → Space m → (child : ℕ) × (m' : Machine) × Forked m m' child
fork m s =
    let (child, m', runs, copy, fresh, count, ext, aligned) = vms_fork_copy-CopyOf m s in
    let tree =
      Within-same (Held m) (Held m) 3 m.bytes m'.bytes m.root s.tree (λ j h. h)
        (λ j h. ext.kept j h tt) in
    (
      child,
      m',
      record {
        runs = runs;
        root = ext.root;
        aligned = aligned;
        parent = subst (Within (Held m) 3 m'.bytes) (sym ext.root) tree;
        kept = λ j h. ext.kept j h tt;
        fresh = Within-same _ (Fresh m) 3 m'.bytes m'.bytes child fresh (λ j h. h.1) (λ j h. refl);
        copy = subst (λ t. CopyOf 3 m'.bytes t child) (sym ext.root) copy;
      },
    )

-- After `vms_fork_copy` of an address space that can be copied, a word that lies in one page, at an
-- address that is mapped with permission to read, reads the same as before, through the root of the
-- parent and, when that is set, through the root that the fork has returned.
pub vms_fork_copy-vms_read :
    (m : Machine)
    → Space m
    → (va : ℕ) → Readable m va
    → (child : ℕ) × (m' : Machine) × (s : Machine) × (x : ℕ) × (vms_fork_copy m ≡ done child m')
      × (vms_set_root_page_table child m' ≡ done tt s)
      × (vms_read va m ≡ done x m)
      × (vms_read va m' ≡ done x m')
      × (vms_read va s ≡ done x s)
vms_fork_copy-vms_read m sp va w =
    let (child, m', f) = fork m sp in
    let s : Machine = record m' { root = child } in
    let (w', same', keep) = word-same (Held m) m m' va sp.tree f.root f.kept w in
    let (ws, same, flag) = word-CopyOf m' child va f.copy w' in
    (
      child,
      m',
      s,
      word_at m va,
      f.runs,
      set_root-done m' child f.aligned,
      word-read m va w,
      word-read m' va w' ∙ ap (λ x. done x m') same',
      word-read s va ws ∙ ap (λ x. done x s) (same ∙ same'),
    )

-- After `vms_fork_copy` of an address space that can be copied and whose root is aligned, parent and
-- child share no memory: a word that is written through the root of the child, where there is
-- permission to read and write, does not change what a word reads through that of the parent, where
-- there is permission to read, and the other way round. Each of the two words lies in one page.
pub vms_fork_copy-isolated :
    (m : Machine)
    → Space m
    → m.root % page_size ≡ 0
    → (va va' v : ℕ) → Writable m va
    → Readable m va'
    → (child : ℕ) × (m' : Machine) × (x : ℕ) × (vms_fork_copy m ≡ done child m')
      × (vms_read va' m ≡ done x m)
      × ((s : Machine) × (s₁ : Machine) × (s₂ : Machine) × (vms_set_root_page_table child m'
            ≡ done tt s)
          × (vms_write va v s ≡ done tt s₁)
          × (vms_set_root_page_table m.root s₁ ≡ done tt s₂)
          × (vms_read va' s₂ ≡ done x s₂))
      × ((t₁ : Machine) × (t₂ : Machine) × (vms_write va v m' ≡ done tt t₁)
          × (vms_set_root_page_table child t₁ ≡ done tt t₂)
          × (vms_read va' t₂ ≡ done x t₂))
vms_fork_copy-isolated m sp aligned va va' v w w' =
    let (child, m', f) = fork m sp in
    let s : Machine = record m' { root = child } in
    let (wm, same, keep) = word-same (Held m) m m' va sp.tree f.root f.kept w.readable in
    let (wm', same', keep') = word-same (Held m) m m' va' sp.tree f.root f.kept w' in
    let (ws, same_s, flag) = word-CopyOf m' child va f.copy wm in
    let (ws', same_s', flag') = word-CopyOf m' child va' f.copy wm' in
    let s₁ : Machine = stored s va v in
    let s₂ : Machine = record s₁ { root = m.root } in
    let t₁ : Machine = stored m' va v in
    let t₂ : Machine = record t₁ { root = child } in
    let (w₂, same₂, keep₂) =
      word-same (Held m) m s₂ va' sp.tree refl
        (λ j h.
          write-kept (Fresh m) (Held m) s va v f.fresh ws (λ k p q. Held-Fresh q p) j h
          ∙ f.kept j h)
        w' in
    let (u₂, same_t, keep_t) =
      word-same (Fresh m) s t₂ va' f.fresh refl
        (λ j h. write-kept (Held m) (Fresh m) m' va v f.parent wm (λ k p q. Held-Fresh p q) j h)
        ws' in
    (
      child,
      m',
      word_at m va',
      f.runs,
      word-read m va' w',
      (
        s,
        s₁,
        s₂,
        set_root-done m' child f.aligned,
        vms_write-stored s va v
            (Writable-IsMapped s va (record { readable = ws; writes = flag ∙ keep ∙ w.writes })),
        set_root-done s₁ m.root aligned,
        word-read s₂ va' w₂ ∙ ap (λ x. done x s₂) same₂,
      ),
      (
        t₁,
        t₂,
        vms_write-stored m' va v
            (Writable-IsMapped m' va (record { readable = wm; writes = keep ∙ w.writes })),
        set_root-done t₁ child f.aligned,
        word-read t₂ va' u₂ ∙ ap (λ x. done x t₂) (same_t ∙ same_s' ∙ same'),
      ),
    )
