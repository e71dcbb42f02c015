-- ===== src/Vrp/Graph/Components.antt =====
-- `FindSCCs` of staticcheck/vrp/vrp.go: Tarjan's search for strongly connected components. The fields
-- that it sets in the vertices are a map from vertices, the stack has its top first, and the fuel bounds
-- the depth of the calls.
pub mod Invariant
pub mod Edge
pub mod Call
pub mod Pop
pub mod Correct
pub mod Exact
pub mod Members
use go_tools.Common.{
  ℕ, zero, suc, ◌+◌, ◌-◌, Bool, true, false, Option, none, some, List, [], ◌∷◌, ◌++◌, if◌then◌else◌,
  ◌==◌, ltb, ◌>>=◌, get_elem?, set,
}

-- The fields of `Vertex` that the search reads and sets.
pub record Mark : Type 0 where
  pub index : ℕ
  pub lowlink : ℕ
  pub scc : ℕ
  pub stack : Bool

-- The fields of all vertices, and the local variables `index`, `s` and `scc`.
pub record Tarjan : Type 0 where
  pub marks : ℕ → Mark
  pub index : ℕ
  pub s : List ℕ
  pub scc : ℕ

abbrev pub start : Tarjan
start = record {
  marks = λ v. record { index = 0; lowlink = 0; scc = 0; stack = false };
  index = 1;
  s = [];
  scc = 0;
}

abbrev pub update : (ℕ → Mark) → ℕ → Mark → ℕ → Mark
update f v m w = if v == w then m else f w

unfoldable pub enter : ℕ → Tarjan → Tarjan
enter v t = record {
  marks =
      update t.marks v (record (t.marks v) { index = t.index; lowlink = t.index; stack = true });
  index = suc t.index;
  s = v ∷ t.s;
  scc = t.scc;
}

-- if l < v.lowlink { v.lowlink = l }
unfoldable pub lower : ℕ → ℕ → Tarjan → Tarjan
lower v l t =
    if ltb l (t.marks v).lowlink
    then record t { marks = update t.marks v (record (t.marks v) { lowlink = l }) }
    else t

-- The loop that pops up to `v`.
unfoldable pub pop : ℕ → ℕ → (ℕ → Mark) → List ℕ → Option ((ℕ → Mark) × List ℕ)
pop v scc f [] = none
pop v scc f (w ∷ s) =
    let f' = update f w (record (f w) { scc = scc; stack = false }) in
    elim (w == v) [ true ↦ some (f', s) | false ↦ pop v scc f' s ]

-- The end of `strongconnect`.
unfoldable pub close : ℕ → Tarjan → Option Tarjan
unfolding pop
close v t =
    if (t.marks v).lowlink == (t.marks v).index
    then (do
      (f, s) ← pop v t.scc t.marks t.s
      some (record { marks = f; index = t.index; s = s; scc = suc t.scc }))
    else some t

-- The body of the loop over the successors of `v`; `call` is `strongconnect`.
unfoldable pub follow : (ℕ → Tarjan → Option Tarjan) → ℕ → ℕ → Tarjan → Option Tarjan
unfolding lower
follow call v w t = elim ((t.marks w).index == 0) [
  | true ↦ do t' ← call w t; some (lower v (t'.marks w).lowlink t')
  | false ↦ some (if (t.marks w).stack then lower v (t.marks w).index t else t)
]

unfoldable pub follow_all : (ℕ → Tarjan → Option Tarjan) → ℕ → List ℕ → Tarjan → Option Tarjan
unfolding follow
follow_all call v [] t = some t
follow_all call v (w ∷ ws) t = do t' ← follow call v w t; follow_all call v ws t'

module _ (next : ℕ → List ℕ) where
  unfoldable pub strongconnect : ℕ → ℕ → Tarjan → Option Tarjan
  unfolding enter follow_all close
  strongconnect zero v t = none
  strongconnect (suc fuel) v t = do
    t' ← follow_all (strongconnect fuel) v (next v) (enter v t)
    close v t'

  -- The loop over the vertices, in the order of the list.
  unfoldable pub connect_all : ℕ → List ℕ → Tarjan → Option Tarjan
  unfolding strongconnect
  connect_all fuel [] t = some t
  connect_all fuel (v ∷ order) t = do
    t' ← elim ((t.marks v).index == 0) [ true ↦ strongconnect fuel v t | false ↦ some t ]
    connect_all fuel order t'

-- n.SCC = scc - n.SCC - 1, where this is an index.
unfoldable pub component : Tarjan → ℕ → Option ℕ
component t v = if ltb (t.marks v).scc t.scc then some (t.scc - (t.marks v).scc - 1) else none

-- The loop that fills `SCCs`.
unfoldable pub add_members : Tarjan → List ℕ → List (List ℕ) → Option (List (List ℕ))
unfolding component
add_members t [] sccs = some sccs
add_members t (v ∷ order) sccs = do
  n ← component t v
  c ← get_elem? sccs n
  add_members t order (set sccs n (c ++ v ∷ []))

abbrev pub no_members : ℕ → List (List ℕ)
no_members zero = []
no_members (suc n) = [] ∷ no_members n

-- `FindSCCs`, for vertices and their successors. The two loops over the map of vertices take two
-- orders.
unfoldable pub find_sccs : (ℕ → List ℕ) → ℕ → List ℕ → List ℕ → Option (Tarjan × List (List ℕ))
unfolding connect_all add_members
find_sccs next fuel order order' = do
  t ← connect_all next fuel order start
  sccs ← add_members t order' (no_members t.scc)
  some (t, sccs)
