-- ===== src/Vrp/Solve/Components.antt =====
-- `Solve` of staticcheck/vrp/vrp.go: the loop over the components, and the analysis from the constraints
-- on.
use go_tools.Common.{ℕ, suc, Option, none, some, List, [], ◌∷◌, ◌>>=◌, length}
use mathlib.Core.List.{reverse}
use go_tools.Vrp.Z.{Z}
use go_tools.Vrp.Constraint.{Constraint, result}
use go_tools.Vrp.Range.{Value, Ranges, Types, store}
use go_tools.Vrp.Eval.{eval}
use go_tools.Vrp.Widen.{widen_int_interval, narrow_int_interval}
use go_tools.Vrp.Solver.{refine_loop, settle, finish}
use go_tools.Vrp.Build.{Const}
use go_tools.Vrp.Graph.{Edge, Graph, empty_graph, add_constraints, successors}
use go_tools.Vrp.Graph.Components.{Tarjan, component, find_sccs}
use go_tools.Vrp.Solve.{
  State, Orders, scc_edges, integer_constants, constraint_at, value_at, resolve_futures, entries,
  uses, actives, settle_integers, propagate,
}

module _ (ts : Types) (g : Graph) (scc_of : ℕ → ℕ) where
  -- The component of one vertex.
  unfoldable pub solve_one : List Edge → ℕ → State → Option State
  unfolding resolve_futures value_at constraint_at
  solve_one edges n s = do
    s' ← resolve_futures ts g scc_of edges s
    elim (value_at ts g scc_of n) [
      | some v ↦ do r ← settle ts s'.ranges v; some (record s' { ranges = r })
      | none ↦ do
        (i, c) ← constraint_at ts g scc_of s'.constraints n
        r ← eval ts s'.ranges c
        some (record s' { ranges = store s'.ranges (result c) r })
    ]

  module _ (constant_of : Value → Option Const) (consts : List Z) where
    -- A component of several vertices. The worklists have their last element first.
    unfoldable pub solve_many : ℕ → Orders → List Edge → List ℕ → State → Option State
    unfolding entries uses resolve_futures settle_integers actives
    solve_many scc orders edges vertices s = do
      (s1, stack) ← entries ts g scc_of scc orders.futures orders.entries s
      r1 ←
          refine_loop ts (widen_int_interval consts) (uses ts g scc_of scc s1.constraints edges)
            orders.rounds s1.ranges (reverse stack)
      s2 ← resolve_futures ts g scc_of edges (record s1 { ranges = r1 })
      r2 ← settle_integers ts g scc_of vertices s2.ranges
      r3 ←
          refine_loop ts narrow_int_interval (uses ts g scc_of scc s2.constraints edges)
            orders.rounds r2 (reverse (actives ts g scc_of constant_of scc orders.actives))
      some (record s2 { ranges = r3 })

    -- The body of the loop over the components.
    unfoldable pub solve_component : ℕ → Orders → List ℕ → State → Option State
    unfolding solve_one solve_many propagate
    solve_component scc orders vertices s =
        let edges = scc_edges scc_of scc g.edges in
        do
          s' ← elim vertices [
            | [] ↦ solve_many scc orders edges [] s
            | n ∷ rest ↦ elim rest [
              | [] ↦ solve_one edges n s
              | m ∷ rest' ↦ solve_many scc orders edges (n ∷ m ∷ rest') s
            ]
          ]
          propagate ts g scc_of edges s'

    unfoldable pub solve_components : ℕ → (ℕ → Orders) → List (List ℕ) → State → Option State
    unfolding solve_component
    solve_components scc orders [] s = some s
    solve_components scc orders (vertices ∷ sccs) s = do
      s' ← solve_component scc (orders scc) vertices s
      solve_components (suc scc) orders sccs s'

-- `n.SCC`, which `FindSCCs` sets for every vertex.
abbrev number : Tarjan → ℕ → ℕ
number t n = elim (component t n) [ none ↦ 0 | some i ↦ i ]

module _ (ts : Types) (constant_of : Value → Option Const) (sorted : List Z → List Z) where
  -- `BuildGraph`, from its constraints on, and `Solve`. `order` and `order'` are the orders of the
  -- vertices in `FindSCCs`, and `sorted` is `sort.Sort`.
  unfoldable pub analyse : List Constraint → List ℕ → List ℕ → (ℕ → Orders) → Option Ranges
  unfolding integer_constants solve_components
  analyse cs order order' orders = do
    let g = add_constraints 0 cs empty_graph
    (t, sccs) ← find_sccs (successors g.edges) (suc (length g.vertices)) order order'
    consts ← integer_constants ts constant_of g.vertices
    s ←
        solve_components ts g (number t) constant_of (sorted consts) 0 orders sccs
          (record { ranges = []; constraints = cs })
    finish ts s.ranges
