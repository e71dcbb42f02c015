-- ===== src/Vrp/Solve.antt =====
-- The parts of `Solve` of staticcheck/vrp/vrp.go for one component: the uses, entries and actives of a
-- component, its futures, and what is propagated from it. The futures that are resolved change their
-- constraints, so these are part of the state. Each loop over the map of vertices takes its order as an
-- argument.
pub mod Components
use go_tools.Common.{
  ℕ, zero, suc, Bool, true, false, not, ◌&&◌, Option, none, some, List, [], ◌∷◌, ◌++◌,
  if◌then◌else◌, ◌==◌, ◌>>=◌, ◌||◌, length, get_elem?, set, pos,
}
use mathlib.Core.List.{reverse}
use go_tools.Vrp.Z
use go_tools.Vrp.Z.{Z, finite}
use go_tools.Vrp.Interval.{infinity_for}
use go_tools.Vrp.Constraint.{Constraint, result, futures}
use go_tools.Vrp.Range.{
  int_shape, int_range, as_shape, is_known, GoType, basic, Value, Ranges, Types, get, store,
}
use go_tools.Vrp.Eval.{eval}
use go_tools.Vrp.Future.{resolve, mark, future_is_known, is_resolved, is_unsigned_type}
use go_tools.Vrp.Widen.{widen_int_interval, narrow_int_interval}
use go_tools.Vrp.Solver.{refine_loop, settle, finish}
use go_tools.Vrp.Build.{Const, int_const}
use go_tools.Vrp.Graph.{
  Node, value, constraint, Edge, Graph, empty_graph, vertex_of, add_constraints, successors,
}
use go_tools.Vrp.Graph.Components.{Tarjan, component, find_sccs}

pub record State : Type 0 where
  pub ranges : Ranges
  pub constraints : List Constraint

-- The orders of the loops over the vertices for one component, and the rounds that its two worklist
-- loops may take.
pub record Orders : Type 0 where
  pub entries : List ℕ
  pub futures : List ℕ
  pub actives : List ℕ
  pub rounds : ℕ

-- `g.sccEdges[scc]`
unfoldable pub scc_edges : (ℕ → ℕ) → ℕ → List Edge → List Edge
scc_edges scc_of scc [] = []
scc_edges scc_of scc (e ∷ es) =
    let rest = scc_edges scc_of scc es in if scc_of e.from == scc then e ∷ rest else rest

module _ (ts : Types) (constant_of : Value → Option Const) where
  -- The constants of integer types, each with its neighbours.
  unfoldable pub integer_constants : List Node → Option (List Z)
  integer_constants [] = some []
  integer_constants (constraint i ∷ ns) = integer_constants ns
  integer_constants (value c ∷ ns) = do
    rest ← integer_constants ns
    elim (constant_of c) [
      | none ↦ some rest
      | some k ↦ elim (ts.type_of c) [
        | basic t ↦
            if t.is_integer
            then (elim k [
              | int_const n ↦ do
                above ← Z.add (finite n) (finite (pos 1))
                below ← Z.sub (finite n) (finite (pos 1))
                some (finite n ∷ above ∷ below ∷ rest)
              | _ ↦ none
            ])
            else some rest
        | _ ↦ some rest
      ]
    ]

module _ (ts : Types) (g : Graph) (scc_of : ℕ → ℕ) where
  -- The constraint of a vertex, with its place.
  unfoldable pub constraint_at : List Constraint → ℕ → Option (ℕ × Constraint)
  constraint_at cs n = elim (get_elem? g.vertices n) [
    | none ↦ none
    | some node ↦ elim node [ value v ↦ none | constraint i ↦ do c ← get_elem? cs i; some (i, c) ]
  ]

  unfoldable pub value_at : ℕ → Option Value
  value_at n = elim (get_elem? g.vertices n) [
    | none ↦ none
    | some node ↦ elim node [ value v ↦ some v | constraint i ↦ none ]
  ]

  resolve_future : Edge → State → Option State
  unfolding constraint_at
  resolve_future e s = if not e.control then some s else (do
    (i, c) ← constraint_at s.constraints e.to
    c' ← resolve ts s.ranges c
    some (record s { constraints = set s.constraints i c' }))

  -- `resolveFutures`, over the control edges of the component
  unfoldable pub resolve_futures : List Edge → State → Option State
  unfolding resolve_future
  resolve_futures [] s = some s
  resolve_futures (e ∷ es) s = do s' ← resolve_future e s; resolve_futures es s'

  -- The first future, in the order of the vertices, whose result is `v`.
  unfoldable pub future_of : List Constraint → Value → List ℕ → Option (ℕ × Constraint)
  unfolding constraint_at
  future_of cs v [] = none
  future_of cs v (n ∷ order) =
      let rest = future_of cs v order in
      elim (constraint_at cs n) [
        | none ↦ rest
        | some (i, c) ↦ elim (futures c) [
          | none ↦ rest
          | some bs ↦ if result c == v then some (i, c) else rest
        ]
      ]

  -- The inner loop of `entries`
  unfoldable pub evaluate_future : List ℕ → Value → State → Option State
  unfolding future_of
  evaluate_future order v s = elim (future_of s.constraints v order) [
    | none ↦ some s
    | some (i, c) ↦
        if not (is_resolved c)
        then (do
          r ← eval ts s.ranges c
          some (record {
            ranges = store s.ranges (result c) r;
            constraints = set s.constraints i (mark true c);
          }))
        else some s
  ]

  -- The body of the outer loop of `entries`
  entry : ℕ → List ℕ → ℕ → State → Option (State × List Value)
  unfolding value_at evaluate_future
  entry scc order n s = if not (scc_of n == scc) then some (s, []) else elim (value_at n) [
    | none ↦ some (s, [])
    | some v ↦ do
      s' ← evaluate_future order v s
      range ← get ts.type_of s'.ranges (some v)
      some (s', if is_known range then v ∷ [] else [])
  ]

  -- `entries`
  unfoldable pub entries : ℕ → List ℕ → List ℕ → State → Option (State × List Value)
  unfolding entry
  entries scc inner [] s = some (s, [])
  entries scc inner (n ∷ order) s = do
    (s', vs) ← entry scc inner n s
    (s'', rest) ← entries scc inner order s'
    some (s'', vs ++ rest)

  -- `uses`: the constraints of the component that read `v`. The vertex of a result is always there.
  unfoldable pub uses : ℕ → List Constraint → List Edge → Value → List Constraint
  unfolding constraint_at value_at
  uses scc cs [] v = []
  uses scc cs (e ∷ es) v =
      let rest = uses scc cs es v in
      if e.control then rest else elim (value_at e.from) [
        | none ↦ rest
        | some u ↦ elim (constraint_at cs e.to) [
          | none ↦ rest
          | some (i, c) ↦
              if u == v && (scc_of (vertex_of g.vertices (value (result c))) == scc)
              then c ∷ rest
              else rest
        ]
      ]

  -- `actives`
  unfoldable pub actives : (Value → Option Const) → ℕ → List ℕ → List Value
  unfolding value_at
  actives constant_of scc [] = []
  actives constant_of scc (n ∷ order) =
      let rest = actives constant_of scc order in
      if not (scc_of n == scc) then rest else elim (value_at n) [
        | none ↦ rest
        | some v ↦ elim (constant_of v) [ none ↦ v ∷ rest | some c ↦ rest ]
      ]

  settle_integer : ℕ → Ranges → Option Ranges
  unfolding value_at
  settle_integer n r = elim (value_at n) [
    | none ↦ some r
    | some v ↦ elim (as_shape int_shape (get ts.type_of r (some v))) [
      | none ↦ some r
      | some i ↦
          if not i.known
          then (do
            d ← infinity_for (is_unsigned_type (ts.type_of v))
            some (store r v (some (int_range d))))
          else some r
    ]
  ]

  -- The loop that gives the unknown integers of a component a default.
  unfoldable pub settle_integers : List ℕ → Ranges → Option Ranges
  unfolding settle_integer
  settle_integers [] r = some r
  settle_integers (n ∷ vertices) r = do r' ← settle_integer n r; settle_integers vertices r'

  propagate_edge : Edge → State → Option State
  unfolding constraint_at
  propagate_edge e s =
      if e.control || (scc_of e.from == scc_of e.to)
      then some s
      else elim (constraint_at s.constraints e.to) [
        | none ↦ some s
        | some (i, c) ↦ do
          r ← eval ts s.ranges c
          some (record {
            ranges = store s.ranges (result c) r;
            constraints =
                if not (future_is_known c)
                then set s.constraints i (mark false c)
                else s.constraints;
          })
      ]

  -- The loop that propagates a component along the edges that leave it.
  unfoldable pub propagate : List Edge → State → Option State
  unfolding propagate_edge
  propagate [] s = some s
  propagate (e ∷ es) s = do s' ← propagate_edge e s; propagate es s'
