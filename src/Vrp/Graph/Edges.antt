-- ===== src/Vrp/Graph/Edges.antt =====
-- The edges that `BuildGraph` of staticcheck/vrp/vrp.go adds.
use go_tools.Common.{
  append_assoc, append-nil, ℕ, suc, ◌≡◌, inl, inr, refl, sym, ◌∙◌, ap, subst, Bool, true, false,
  Option, some, none, List, [], ◌∷◌, ◌++◌, ==_iff, Option-cases, eq_of_some, arith, length,
  get_elem?,
}
use go_tools.Common.Search.{Below}
use go_tools.Vrp.Constraint.{Constraint, result, operands, futures}
use go_tools.Vrp.Range.{Value}
use go_tools.Vrp.Graph.{
  Node, value, constraint, Edge, Graph, empty_graph, vertex_of, add_vertex, add_edge, add_edges,
  add_futures, add_constraint, add_constraints, successors,
}
use go_tools.Vrp.Graph.Arrows.{
  Arrow, arrows_to, listed, arrows_of, arrows, ends, IsMap, add_vertex-IsAdded, get_elem?-lt,
}

ends_kept :
    (ns ns' : List Node) (es : List Edge) (as' : List Arrow)
    → ((i : ℕ) (m : Node) → get_elem? ns i ≡ some m → get_elem? ns' i ≡ some m)
    → ends ns es ≡ some as'
    → ends ns' es ≡ some as'
ends_kept ns ns' [] as' k h = h
ends_kept ns ns' (e ∷ es) as' k h = elim (Option-cases (get_elem? ns e.from)) [
  | inl n ↦ ground arith
  | inr (a, p) ↦ elim (Option-cases (get_elem? ns e.to)) [
    | inl n ↦ ground arith
    | inr (b, q) ↦ elim (Option-cases (ends ns es)) [
      | inl n ↦ ground arith
      | inr (rest, r) ↦ ground (arith, k e.from a p, k e.to b q, ends_kept ns ns' es rest k r)
    ]
  ]
]

ends-snoc :
    (ns : List Node) (es : List Edge) (as' : List Arrow) (e : Edge) (a b : Node)
    → ends ns es ≡ some as'
    → get_elem? ns e.from ≡ some a
    → get_elem? ns e.to ≡ some b
    → ends ns (es ++ e ∷ []) ≡ some (as' ++ record { from = a; to = b; control = e.control } ∷ [])
ends-snoc ns [] as' e a b h p q =
    rw (p, q)
      (ap (λ r. some (r ++ record { from = a; to = b; control = e.control } ∷ [])) (eq_of_some h))
ends-snoc ns (d ∷ es) as' e a b h p q = elim (Option-cases (get_elem? ns d.from)) [
  | inl n ↦ ground arith
  | inr (x, i) ↦ elim (Option-cases (get_elem? ns d.to)) [
    | inl n ↦ ground arith
    | inr (y, j) ↦ elim (Option-cases (ends ns es)) [
      | inl n ↦ ground arith
      | inr (rest, r) ↦ ground (arith, ends-snoc ns es rest e a b r p q)
    ]
  ]
]

-- A graph whose vertices are distinct and whose edges are these arrows.
pub record IsGraphOf (as' : List Arrow) (g : Graph) : Type 0 where
  pub is_map : IsMap g.vertices
  pub edges_are : ends g.vertices g.edges ≡ some as'

add_edge-IsGraphOf :
    (a b : Node) (control : Bool) (as' : List Arrow) (g : Graph)
    → IsGraphOf as' g
    → IsGraphOf
        (as' ++ record { from = a; to = b; control = control } ∷ [])
        (add_edge a b control g)
unfolding add_edge
add_edge-IsGraphOf a b control as' g h =
    let ns = add_vertex g.vertices a in
    let ns' = add_vertex ns b in
    let p = add_vertex-IsAdded g.vertices a h.is_map in
    let q = add_vertex-IsAdded ns b p.is_map in
    let from' = q.kept (vertex_of ns a) a p.found in
    record {
      is_map = q.is_map;
      edges_are =
          ends-snoc ns' g.edges as'
            (record { from = vertex_of ns' a; to = vertex_of ns' b; control = control }) a b
            (ends_kept g.vertices ns' g.edges as' (λ i m k. q.kept i m (p.kept i m k)) h.edges_are)
            (rw (q.is_map (vertex_of ns a) a from') from') q.found;
    }

add_edges-IsGraphOf :
    (vs : List Value) (n : Node) (control : Bool) (as' : List Arrow) (g : Graph)
    → IsGraphOf as' g
    → IsGraphOf (as' ++ arrows_to n control vs) (add_edges vs n control g)
unfolding add_edges
add_edges-IsGraphOf [] n control as' g h = subst (λ r. IsGraphOf r g) (sym (append-nil as')) h
add_edges-IsGraphOf (v ∷ vs) n control as' g h =
    subst (λ r. IsGraphOf r (add_edges vs n control (add_edge (value v) n control g)))
      (append_assoc as' (record { from = value v; to = n; control = control } ∷ [])
        (arrows_to n control vs))
      (add_edges-IsGraphOf vs n control
        (as' ++ record { from = value v; to = n; control = control } ∷ [])
        (add_edge (value v) n control g) (add_edge-IsGraphOf (value v) n control as' g h))

add_futures-IsGraphOf :
    (m : Option (List Value)) (n : Node) (as' : List Arrow) (g : Graph)
    → IsGraphOf as' g
    → IsGraphOf (as' ++ arrows_to n true (listed m)) (add_futures m n g)
unfolding add_futures
add_futures-IsGraphOf none n as' g h = subst (λ r. IsGraphOf r g) (sym (append-nil as')) h
add_futures-IsGraphOf (some vs) n as' g h = add_edges-IsGraphOf vs n true as' g h

add_constraint-IsGraphOf :
    (i : ℕ) (c : Constraint) (as' : List Arrow) (g : Graph)
    → IsGraphOf as' g
    → IsGraphOf (as' ++ arrows_of i c) (add_constraint i c g)
unfolding add_constraint
add_constraint-IsGraphOf i c as' g h =
    let n = constraint i in
    let first = arrows_to n false (operands c) in
    let second = arrows_to n true (listed (futures c)) in
    let last = record { from = n; to = value (result c); control = false } ∷ [] in
    subst (λ r. IsGraphOf r (add_constraint i c g))
      (append_assoc (as' ++ first) second last
        ∙ (append_assoc as' first (second ++ last)
            ∙ ap (λ r. as' ++ r) (sym (append_assoc first second last))))
      (add_edge-IsGraphOf n (value (result c)) false ((as' ++ first) ++ second)
        (add_futures (futures c) n (add_edges (operands c) n false g))
        (add_futures-IsGraphOf (futures c) n (as' ++ first) (add_edges (operands c) n false g)
          (add_edges-IsGraphOf (operands c) n false as' g h)))

from-IsGraphOf :
    (i : ℕ) (cs : List Constraint) (as' : List Arrow) (g : Graph)
    → IsGraphOf as' g
    → IsGraphOf (as' ++ arrows i cs) (add_constraints i cs g)
unfolding add_constraints
from-IsGraphOf i [] as' g h = subst (λ r. IsGraphOf r g) (sym (append-nil as')) h
from-IsGraphOf i (c ∷ cs) as' g h =
    subst (λ r. IsGraphOf r (add_constraints (suc i) cs (add_constraint i c g)))
      (append_assoc as' (arrows_of i c) (arrows (suc i) cs))
      (from-IsGraphOf (suc i) cs (as' ++ arrows_of i c) (add_constraint i c g)
        (add_constraint-IsGraphOf i c as' g h))

-- `BuildGraph` gives each value and each constraint one vertex, and its edges are those of the
-- constraints: to each from its operands, and, as control edges, from the operands of its future, and
-- from each to its result.
pub add_constraints-IsGraphOf :
    (cs : List Constraint) → IsGraphOf (arrows 0 cs) (add_constraints 0 cs empty_graph)
add_constraints-IsGraphOf cs =
    from-IsGraphOf 0 cs [] empty_graph (record { is_map = λ i n h. cc; edges_are = refl })

ends-Below :
    (ns : List Node) (es : List Edge) (as' : List Arrow) (x : ℕ)
    → ends ns es ≡ some as'
    → Below (length ns) (successors es x)
unfolding successors
ends-Below ns [] as' x h y m = cc
ends-Below ns (e ∷ es) as' x h y m = elim (Option-cases (get_elem? ns e.from)) [
  | inl n ↦ ground arith
  | inr (a, p) ↦ elim (Option-cases (get_elem? ns e.to)) [
    | inl n ↦ ground arith
    | inr (b, q) ↦ elim (Option-cases (ends ns es)) [
      | inl n ↦ ground arith
      | inr (rest, r) ↦
          ground (arith, ends-Below ns es rest x r y, get_elem?-lt ns e.to b q, ==_iff y e.to)
    ]
  ]
]

-- The successors of a vertex are vertices.
pub successors-Below :
    (cs : List Constraint) (x : ℕ)
    → Below
        (length (add_constraints 0 cs empty_graph).vertices)
        (successors (add_constraints 0 cs empty_graph).edges x)
successors-Below cs x =
    let g = add_constraints 0 cs empty_graph in
    let h = add_constraints-IsGraphOf cs in
    ends-Below g.vertices g.edges (arrows 0 cs) x h.edges_are
