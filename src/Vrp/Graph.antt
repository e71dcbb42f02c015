-- ===== src/Vrp/Graph.antt =====
-- The graph of staticcheck/vrp/vrp.go: `AddEdge`, the last loops of `BuildGraph`, and `FindSCCs`. A
-- vertex is a number, the place at which the map of vertices got it; the loops over that map, whose
-- order Go leaves open, take the order that they go in as an argument.
pub mod Arrows
pub mod Components
pub mod Edges
use go_tools.Common.{
  ℕ, zero, suc, ◌+◌, ◌-◌, Bool, true, false, not, ◌&&◌, ◌||◌, Option, none, some, List, [], ◌∷◌,
  ◌++◌, if◌then◌else◌, ◌==◌, ltb, ◌>>=◌, length, get_elem?, set,
}
use go_tools.Vrp.Constraint.{Constraint, result, operands, futures}
use go_tools.Vrp.Range.{Value}

-- What a vertex stands for: a value, or a constraint by its place in the list of constraints.
pub data Node : Type 0 where
  value : Value → Node
  constraint : ℕ → Node

same_node : Node → Node → Bool
same_node (value a) (value b) = a == b
same_node (constraint a) (constraint b) = a == b
same_node _ _ = false

pub record Edge : Type 0 where
  pub from : ℕ
  pub to : ℕ
  pub control : Bool

-- The keys of `Vertices`, and `Edges`.
pub record Graph : Type 0 where
  pub vertices : List Node
  pub edges : List Edge

abbrev pub empty_graph : Graph
empty_graph = record { vertices = []; edges = [] }

-- The place of a node, the length of the list if it is not there.
unfoldable pub vertex_of : List Node → Node → ℕ
unfolding same_node
vertex_of [] n = 0
vertex_of (m ∷ ns) n = if same_node m n then 0 else suc (vertex_of ns n)

-- `vf, ok := g.Vertices[from]`, with the new vertex if there is none.
unfoldable pub add_vertex : List Node → Node → List Node
unfolding vertex_of
add_vertex ns n = if vertex_of ns n == length ns then ns ++ n ∷ [] else ns

unfoldable pub add_edge : Node → Node → Bool → Graph → Graph
unfolding add_vertex vertex_of
add_edge from to control g =
    let ns : List Node = add_vertex (add_vertex g.vertices from) to in
    let e : Edge = record { from = vertex_of ns from; to = vertex_of ns to; control = control } in
    record { vertices = ns; edges = g.edges ++ e ∷ [] }

unfoldable pub add_edges : List Value → Node → Bool → Graph → Graph
unfolding add_edge
add_edges [] to control g = g
add_edges (op ∷ ops) to control g = add_edges ops to control (add_edge (value op) to control g)

-- The edges of a constraint that is a future.
unfoldable pub add_futures : Option (List Value) → Node → Graph → Graph
unfolding add_edges
add_futures none to g = g
add_futures (some ops) to g = add_edges ops to true g

-- The body of the loop over `cs`, for the constraint at place `i`.
unfoldable pub add_constraint : ℕ → Constraint → Graph → Graph
unfolding add_edges add_futures add_edge
add_constraint i c g =
    add_edge (constraint i) (value (result c)) false
      (add_futures (futures c) (constraint i) (add_edges (operands c) (constraint i) false g))

unfoldable pub add_constraints : ℕ → List Constraint → Graph → Graph
unfolding add_constraint
add_constraints i [] g = g
add_constraints i (c ∷ cs) g = add_constraints (suc i) cs (add_constraint i c g)

-- `Succs` of a vertex, by their targets.
unfoldable pub successors : List Edge → ℕ → List ℕ
successors [] v = []
successors (e ∷ es) v = if e.from == v then e.to ∷ successors es v else successors es v
