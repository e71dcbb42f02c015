-- ===== src/Unused/Marking/Exact.antt =====
-- `markNodesUsed` of unused/unused.go against the nodes that the roots lead to.
use go_tools.Common.{
  ℕ, zero, suc, ◌+◌, ◌<◌, ◌≡◌, refl, ap, ◌↔◌, inl, inr, true, Option, some, List, [], ◌∷◌, ◌++◌,
  ◌>>=◌, Bool-cases, arith,
}
use mathlib.Core.Path.{fun_ext}
use go_tools.Common.Search.{member, Below, visit, Leads, visit_exact}
use go_tools.Unused.Graph.{Node}
use go_tools.Unused.Marking.{uses_of, mark_nodes_used}

mark_nodes_used-eq-visit :
    (nodes : List Node) (fuel : ℕ) (todo used : List ℕ)
    → mark_nodes_used nodes fuel todo used ≡ visit (uses_of nodes) fuel todo used
unfolding mark_nodes_used visit
mark_nodes_used-eq-visit nodes fuel [] used = refl
mark_nodes_used-eq-visit nodes zero (n ∷ rest) used = refl
mark_nodes_used-eq-visit nodes (suc fuel) (n ∷ rest) used = elim (Bool-cases (member n used)) [
  | inl m ↦ rw (m, mark_nodes_used, visit) (mark_nodes_used-eq-visit nodes (suc fuel) rest used)
  | inr m ↦
      rw
        (
          m,
          mark_nodes_used,
          visit,
          mark_nodes_used-eq-visit nodes fuel (uses_of nodes n) (used ++ n ∷ []),
        )
        (ap
          (λ (f : List ℕ → Option (List ℕ)).
            visit (uses_of nodes) fuel (uses_of nodes n) (used ++ n ∷ []) >>= f)
          (fun_ext (λ l. mark_nodes_used-eq-visit nodes (suc fuel) rest l)))
]

-- From roots and uses whose identities are below `size`, `markNodesUsed` ends, and marks exactly the
-- nodes that a root leads to.
pub mark_nodes_used_exact :
    (nodes : List Node) (size : ℕ) (roots : List ℕ)
    → ((x : ℕ) → x < size → Below size (uses_of nodes x))
    → Below size roots
    → (used : List ℕ) × (mark_nodes_used nodes (size + 1) roots [] ≡ some used)
      × ((x : ℕ)
          → (member x used ≡ true)
            ↔ ((t : ℕ) × (member t roots ≡ true) × Leads (uses_of nodes) t x))
mark_nodes_used_exact nodes size roots h r =
    let (used, e, x) = visit_exact (uses_of nodes) size h (size + 1) roots (omega arith) r in
    (used, rw (mark_nodes_used-eq-visit nodes (size + 1) roots []) e, x)
