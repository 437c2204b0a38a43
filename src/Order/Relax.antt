-- ===== src/Order/Relax.antt =====
-- One round of the loop of `TopologicalSort` (internal/core/deployment/ordering.go): what happens to
-- the in-degrees and which names join the queue.
use hoster.Prelude.{
  mem-append, ℕ, zero, suc, ◌+◌, ◌≡◌, refl, ◌<◌, ◌↔◌, ◌∙◌, inl, inr, String, Bool, true, false,
  List, [], ◌∷◌, ◌++◌, str_eq, str_eq_iff, str_eq_refl, mem, arith, if◌then◌else◌, sym, Bool-cases,
  subst,
}
use mathlib.Core.List.{append_assoc, append-nil}
use hoster.Prelude.Int.{ℤ, pos, negsuc}
use hoster.Prelude.Dict.{update}
use hoster.Order.{pred_ℤ, is_zero, relax, enqueue}

-- How often a name stands in a list.
abbrev pub count : String → List String → ℕ
count x [] = 0
count x (y ∷ ys) = let rest = count x ys in if str_eq y x then suc rest else rest

-- How many entries of a list are not among `placed`.
abbrev pub remaining : List String → List String → ℕ
remaining placed [] = 0
remaining placed (d ∷ ds) =
    let rest = remaining placed ds in if mem d placed then rest else suc rest

pub remaining-cons :
    (placed : List String) (n : String) (ds : List String)
    → mem n placed ≡ false
    → remaining placed ds ≡ remaining (n ∷ placed) ds + count n ds
remaining-cons placed n [] h = omega arith
remaining-cons placed n (d ∷ ds) h =
    ground (arith, remaining-cons placed n ds h, str_eq_iff d n, str_eq_iff n d)

-- No name stands twice.
abbrev pub Distinct : List String → Type 0
Distinct [] = Unit
Distinct (x ∷ xs) = (mem x xs ≡ false) × Distinct xs

pub Distinct-append :
    (xs ys : List String)
    → Distinct xs
    → Distinct ys
    → ((x : String) → mem x xs ≡ true → mem x ys ≡ false)
    → Distinct (xs ++ ys)
Distinct-append [] ys hx hy apart = hy
Distinct-append (x ∷ xs) ys (new, hx) hy apart = (
  ground (arith, mem-append x xs ys, apart x, str_eq_refl x),
  Distinct-append xs ys hx hy (λ z m. apart z (ground arith)),
)

pub update_self : (m : String → ℤ) (k : String) (v : ℤ) → update m k v k ≡ v
unfolding update
update_self m k v = rw (str_eq_refl k)

pub update_ne : (m : String → ℤ) (k j : String) (v : ℤ) → str_eq k j ≡ false → update m k v j ≡ m j
unfolding update
update_ne m k j v h = rw h

-- The names that join the queue, in order.
pub fresh : (String → ℤ) → List String → List String
fresh degree [] = []
fresh degree (dep ∷ deps) =
    let next = update degree dep (pred_ℤ (degree dep)) in
    let rest = fresh next deps in if is_zero (next dep) then dep ∷ rest else rest

abbrev step : (String → ℤ) → String → String → ℤ
step degree dep = update degree dep (pred_ℤ (degree dep))

enqueue_lem :
    (degree : ℤ) (dep : String) (queue rest : List String)
    → enqueue degree dep queue ++ rest ≡ queue ++ (if is_zero degree then dep ∷ rest else rest)
enqueue_lem (pos zero) dep queue rest = append_assoc queue (dep ∷ []) rest
enqueue_lem (pos (suc n)) dep queue rest = refl
enqueue_lem (negsuc n) dep queue rest = refl

pub relax_queue :
    (degree : String → ℤ) (queue deps : List String)
    → (relax degree queue deps).1 ≡ queue ++ fresh degree deps
unfolding relax fresh
relax_queue degree queue [] = sym (append-nil queue)
relax_queue degree queue (dep ∷ deps) =
    relax_queue (step degree dep) (enqueue (step degree dep dep) dep queue) deps
    ∙ enqueue_lem (step degree dep dep) dep queue (fresh (step degree dep) deps)

pred_entry : (a : ℤ) (n c : ℕ) → a ≡ pos (n + suc c) → pred_ℤ a ≡ pos (n + c)
pred_entry (pos zero) n c h = ground arith
pred_entry (pos (suc k)) n c h = ground arith
pred_entry (negsuc k) n c h = ground arith

step_self :
    (degree : String → ℤ) (dep : String) (n c : ℕ)
    → degree dep ≡ pos (n + suc c)
    → step degree dep dep ≡ pos (n + c)
step_self degree dep n c h = update_self degree dep (pred_ℤ (degree dep)) ∙ pred_entry _ n c h

-- What is left of a number of entries after the first of them, for a name and for any other.
step_degree :
    (degree : String → ℤ) (dep x : String) (n : ℕ) (deps : List String)
    → degree x ≡ pos (n + count x (dep ∷ deps))
    → step degree dep x ≡ pos (n + count x deps)
step_degree degree dep x n deps h = elim (Bool-cases (str_eq dep x)) [
  | inl e ↦
      subst
        (λ y. degree y ≡ pos (n + suc (count x deps)) → step degree dep y ≡ pos (n + count x deps))
        ((str_eq_iff dep x).0 e) (step_self degree dep n (count x deps)) (ground arith)
  | inr e ↦ update_ne degree dep x (pred_ℤ (degree dep)) e ∙ ground arith
]

-- Each name's in-degree falls by the number of its entries.
pub relax_degree :
    (degree : String → ℤ) (queue deps : List String) (x : String) (n : ℕ)
    → degree x ≡ pos (n + count x deps)
    → (relax degree queue deps).0 x ≡ pos n
unfolding relax
relax_degree degree queue [] x n h = ground arith
relax_degree degree queue (dep ∷ deps) x n h =
    relax_degree (step degree dep) _ deps x n (step_degree degree dep x n deps h)

abbrev join : ℤ → String → List String → List String
join z dep rest = if is_zero z then dep ∷ rest else rest

join_self :
    (z : ℤ) (dep x : String) (rest : List String) (n c : ℕ)
    → z ≡ pos (n + c)
    → str_eq dep x ≡ true
    → (mem x rest ≡ true) ↔ ((n ≡ 0) × (0 < c))
    → (mem x (join z dep rest) ≡ true) ↔ ((n ≡ 0) × (0 < suc c))
join_self (pos zero) dep x rest n c h e ih = ground arith
join_self (pos (suc k)) dep x rest n c h e ih = ground arith
join_self (negsuc k) dep x rest n c h e ih = ground arith

join_other :
    (z : ℤ) (dep x : String) (rest : List String) (n c : ℕ)
    → str_eq dep x ≡ false
    → (mem x rest ≡ true) ↔ ((n ≡ 0) × (0 < c))
    → (mem x (join z dep rest) ≡ true) ↔ ((n ≡ 0) × (0 < c))
join_other (pos zero) dep x rest n c e ih = ground arith
join_other _ dep x rest n c e ih = ih

-- A name joins the queue exactly if its entries are all that was left of its in-degree.
pub fresh_iff :
    (degree : String → ℤ) (deps : List String) (x : String) (n : ℕ)
    → degree x ≡ pos (n + count x deps)
    → (mem x (fresh degree deps) ≡ true) ↔ ((n ≡ 0) × (0 < count x deps))
unfolding fresh
fresh_iff degree [] x n h = ground arith
fresh_iff degree (dep ∷ deps) x n h =
    let after = step_degree degree dep x n deps h in
    let ih = fresh_iff (step degree dep) deps x n after in
    elim (Bool-cases (str_eq dep x)) [
      | inl e ↦ rw e (
          join_self (step degree dep dep) dep x (fresh (step degree dep) deps) n (count x deps)
            (subst (λ y. step degree dep y ≡ pos (n + count x deps)) (sym ((str_eq_iff dep x).0 e))
              after)
            e ih)
      | inr e ↦ rw e (
          join_other (step degree dep dep) dep x (fresh (step degree dep) deps) n (count x deps) e
            ih)
    ]

entries : (z : ℤ) (n c : ℕ) → is_zero z ≡ true → z ≡ pos (n + c) → n + c ≡ 0
entries (pos zero) n c e h = ground arith
entries (pos (suc k)) n c e h = cc
entries (negsuc k) n c e h = cc

spent :
    (z : ℤ) (n c : ℕ) (m : Bool)
    → is_zero z ≡ true
    → z ≡ pos (n + c)
    → (m ≡ true) ↔ ((n ≡ 0) × (0 < c))
    → m ≡ false
spent z n c true e h (f, g) = absurd (omega (arith, (f refl).1, entries z n c e h))
spent z n c false e h ih = refl

-- A name joins the queue once.
pub fresh-Distinct :
    (degree : String → ℤ) (deps : List String)
    → ((x : String) → (n : ℕ) × (degree x ≡ pos (n + count x deps)))
    → Distinct (fresh degree deps)
unfolding fresh
fresh-Distinct degree [] h = tt
fresh-Distinct degree (dep ∷ deps) h =
    let after = step_degree degree dep dep (h dep).0 deps (h dep).1 in
    let rest =
      fresh-Distinct (step degree dep) deps
        (λ x. ((h x).0, step_degree degree dep x (h x).0 deps (h x).1)) in
    elim (Bool-cases (is_zero (step degree dep dep))) [
      | inr e ↦ rw e rest
      | inl e ↦ rw e (
        spent (step degree dep dep) (h dep).0 (count dep deps)
            (mem dep (fresh (step degree dep) deps)) e after
            (fresh_iff (step degree dep) deps dep (h dep).0 after),
        rest,
      )
    ]
