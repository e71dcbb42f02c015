-- ===== src/Functions/Loops.antt =====
-- `findLoops` and `allPredsBut` of functions/loops.go against the natural loop of a back-edge.
use go_tools.Common.{
  ℕ, zero, suc, ◌+◌, ◌≡◌, refl, sym, ap, subst, ◌↔◌, ◌⊎◌, inl, inr, Bool, true, false, Option, some,
  List, [], ◌∷◌, ◌++◌, if◌then◌else◌, ◌==◌, ==_iff, ◌>>=◌, length, Bool-cases, arith, ◌≢◌,
}
use mathlib.Core.Path.{fun_ext}
use go_tools.Common.Search.{member, Below, visit, Leads, here, step, visit_exact}
use go_tools.Functions.{
  Function, Block, preds_of, preds_loop, all_preds_but, loop_of, loops_to, loops_from, find_loops,
}

-- The members of a list but one.
abbrev pub without : ℕ → List ℕ → List ℕ
without h [] = []
without h (n ∷ ns) = elim (n == h) [ true ↦ without h ns | false ↦ n ∷ without h ns ]

pub member-without :
    (h x : ℕ) (ns : List ℕ) → (member x (without h ns) ≡ true) ↔ ((member x ns ≡ true) × (x ≢ h))
member-without h x [] = (λ m. cc, λ m. m.0)
member-without h x (n ∷ ns) = grind (arith, member-without h x ns)

module _ (bs : List Block) where
  -- The predecessors of a block that are not `h`.
  abbrev pub preds_without : ℕ → ℕ → List ℕ
  preds_without h x = without h (preds_of bs x)

  preds_loop-eq-visit :
      (h fuel : ℕ) (preds list : List ℕ)
      → preds_loop bs h fuel preds list ≡ visit (preds_without h) fuel (without h preds) list
  unfolding preds_loop visit
  preds_loop-eq-visit h fuel [] list = refl
  preds_loop-eq-visit h zero (p ∷ preds) list = elim (Bool-cases (p == h)) [
    | inl e ↦ rw (e, preds_loop, without) (preds_loop-eq-visit h zero preds list)
    | inr e ↦ rw (e, preds_loop, without) refl
  ]
  preds_loop-eq-visit h (suc fuel) (p ∷ preds) list = elim (Bool-cases (p == h)) [
    | inl e ↦ rw (e, preds_loop, without) (preds_loop-eq-visit h (suc fuel) preds list)
    | inr e ↦ elim (Bool-cases (member p list)) [
      | inl m ↦ rw (e, preds_loop, without, m, visit) (preds_loop-eq-visit h (suc fuel) preds list)
      | inr m ↦
          rw
            (
              e,
              preds_loop,
              without,
              m,
              visit,
              preds_loop-eq-visit h fuel (preds_of bs p) (list ++ p ∷ []),
            )
            (ap
              (λ (f : List ℕ → Option (List ℕ)).
                visit (preds_without h) fuel (preds_without h p) (list ++ p ∷ []) >>= f)
              (fun_ext (λ l. preds_loop-eq-visit h (suc fuel) preds l)))
    ]
  ]

  -- Every block has a number below `k`.
  abbrev pub InRange : ℕ → Type 0
  InRange k = (x : ℕ) → Below k (preds_of bs x)

  -- The loop of the back-edge from `n` to `h`: the header, and the blocks from which `n` is reached
  -- without passing the header.
  abbrev pub IsNaturalLoop : ℕ → ℕ → List ℕ → Type 0
  IsNaturalLoop h n set =
      (x : ℕ) → (member x set ≡ true) ↔ ((x ≡ h) ⊎ ((n ≢ h) × Leads (preds_without h) n x))

  to_natural :
      (h n : ℕ) (set : List ℕ)
      → n ≢ h
      → ((x : ℕ)
          → (member x set ≡ true)
            ↔ ((t : ℕ) × (member t (preds_without h n) ≡ true) × Leads (preds_without h) t x))
      → IsNaturalLoop h n (h ∷ n ∷ set)
  to_natural h n set ne exact x = (
    λ m. elim (Bool-cases (x == h)) [
      | inl e ↦ inl ((==_iff x h).0 e)
      | inr e ↦ elim (Bool-cases (x == n)) [
        | inl f ↦ inr (ne, subst (λ z. Leads (preds_without h) n z) (sym ((==_iff x n).0 f)) here)
        | inr f ↦ let (t, tm, l) = (exact x).0 (ground arith) in inr (ne, step tm l)
      ]
    ],
    λ p. elim p [ inl e ↦ ground (arith, ==_iff x h) | inr (_, l) ↦ from_path l (exact x).1 ],
  )
    where
      from_path :
          {x : ℕ}
          → Leads (preds_without h) n x
          → (((t : ℕ) × (member t (preds_without h n) ≡ true) × Leads (preds_without h) t x)
              → member x set ≡ true)
          → member x (h ∷ n ∷ set) ≡ true
      from_path here back = ground (arith, ==_iff n n)
      from_path (step {y = y} m l) back = ground (arith, back (y, m, l))

  loop_of-IsNaturalLoop :
      (dominates : ℕ → ℕ → Bool) (h n : ℕ)
      → InRange (length bs)
      → (set : List ℕ) × (loop_of dominates bs h n ≡ some set) × IsNaturalLoop h n set
  unfolding loop_of all_preds_but
  loop_of-IsNaturalLoop dominates h n r = elim (Bool-cases (n == h)) [
    | inl e ↦ (n ∷ [], rw e refl, λ x. ground (arith, ==_iff x n, ==_iff n h))
    | inr e ↦
        let (set, f, exact) =
          visit_exact (preds_without h) (length bs)
            (λ x _ y m. r x y ((member-without h y (preds_of bs x)).0 m).0) (length bs + 1)
            (preds_without h n) (omega arith)
            (λ y m. r n y ((member-without h y (preds_of bs n)).0 m).0) in
        (
          h ∷ n ∷ set,
          rw (e, preds_loop-eq-visit h (length bs + 1) (preds_of bs n) [], f) refl,
          to_natural h n set (λ q. ground (arith, ==_iff n h)) exact,
        )
  ]

-- The back-edges of a function: from `n` to `h`, where `h` dominates its predecessor `n`.
abbrev pub back_edges_to : (ℕ → ℕ → Bool) → ℕ → List ℕ → List (ℕ × ℕ)
back_edges_to dominates h [] = []
back_edges_to dominates h (n ∷ preds) =
    if dominates h n
    then (h, n) ∷ back_edges_to dominates h preds
    else back_edges_to dominates h preds

abbrev pub back_edges : (ℕ → ℕ → Bool) → List Block → List ℕ → List (ℕ × ℕ)
back_edges dominates bs [] = []
back_edges dominates bs (h ∷ tree) =
    back_edges_to dominates h (preds_of bs h) ++ back_edges dominates bs tree

-- One natural loop for each back-edge, in their order.
abbrev pub AreNaturalLoops : List Block → List (ℕ × ℕ) → List (List ℕ) → Type 0
AreNaturalLoops bs [] [] = Unit
AreNaturalLoops bs ((h, n) ∷ edges) (set ∷ sets) =
    IsNaturalLoop bs h n set × AreNaturalLoops bs edges sets
AreNaturalLoops bs _ _ = ⊥

AreNaturalLoops-append :
    (bs : List Block) (es fs : List (ℕ × ℕ)) (ss ts : List (List ℕ))
    → AreNaturalLoops bs es ss
    → AreNaturalLoops bs fs ts
    → AreNaturalLoops bs (es ++ fs) (ss ++ ts)
AreNaturalLoops-append bs [] fs [] ts p q = q
AreNaturalLoops-append bs ((h, n) ∷ es) fs (s ∷ ss) ts (p, ps) q =
    (p, AreNaturalLoops-append bs es fs ss ts ps q)
AreNaturalLoops-append bs [] fs (s ∷ ss) ts p q = absurd p
AreNaturalLoops-append bs ((h, n) ∷ es) fs [] ts p q = absurd p

module _ (dominates : ℕ → ℕ → Bool) (bs : List Block) (r : InRange bs (length bs)) where
  loops_to-AreNaturalLoops :
      (h : ℕ) (preds : List ℕ)
      → (sets : List (List ℕ)) × (loops_to dominates bs h preds ≡ some sets)
        × AreNaturalLoops bs (back_edges_to dominates h preds) sets
  unfolding loops_to
  loops_to-AreNaturalLoops h [] = ([], refl, tt)
  loops_to-AreNaturalLoops h (n ∷ preds) =
      let (sets, e, l) = loops_to-AreNaturalLoops h preds in
      let (set, f, m) = loop_of-IsNaturalLoop bs dominates h n r in
      elim (Bool-cases (dominates h n)) [
        | inl d ↦ (set ∷ sets, rw (d, f, e) refl, rw d (m, l))
        | inr d ↦ (sets, rw d e, rw d l)
      ]

  loops_from-AreNaturalLoops :
      (tree : List ℕ)
      → (sets : List (List ℕ)) × (loops_from dominates bs tree ≡ some sets)
        × AreNaturalLoops bs (back_edges dominates bs tree) sets
  unfolding loops_from
  loops_from-AreNaturalLoops [] = ([], refl, tt)
  loops_from-AreNaturalLoops (h ∷ tree) =
      let (sets, e, l) = loops_to-AreNaturalLoops h (preds_of bs h) in
      let (rest, f, m) = loops_from-AreNaturalLoops tree in
      (
        sets ++ rest,
        rw (e, f) refl,
        AreNaturalLoops-append bs (back_edges_to dominates h (preds_of bs h))
            (back_edges dominates bs tree) sets rest l m,
      )

-- Of a function whose blocks have predecessors among its blocks, `findLoops` returns one set of blocks
-- for each back-edge from a block `n` to a block `h` of the tree that dominates it, and no other: the
-- set holds exactly `h` and, if `n` is another block, the blocks from which `n` is reached without
-- passing `h`.
pub find_loops-AreNaturalLoops :
    (dominates : ℕ → ℕ → Bool) (tree : List ℕ) (fn : Function) (bs : List Block)
    → fn.blocks ≡ some bs
    → InRange bs (length bs)
    → (sets : List (List ℕ)) × (find_loops dominates tree fn ≡ some sets)
      × AreNaturalLoops bs (back_edges dominates bs tree) sets
unfolding find_loops
find_loops-AreNaturalLoops dominates tree fn bs e r =
    rw (e, find_loops) (loops_from-AreNaturalLoops dominates bs r tree)
