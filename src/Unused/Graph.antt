-- ===== src/Unused/Graph.antt =====
-- `graph` of unused/unused.go: `getNode`, `addObj` and `markUsedBy`.
use go_tools.Common.{
  ℕ, zero, suc, Bool, true, false, Option, none, some, List, [], ◌∷◌, ◌++◌, if◌then◌else◌, ◌==◌,
}
use go_tools.Common.Search.{member}
use go_tools.Unused.World.{World}

-- `graphNode` without its flag `used`, which only the marking sets, and its number for the debug
-- output. A node is known by its object, so `uses` holds objects.
pub record Node : Type 0 where
  pub obj : ℕ
  pub uses : List ℕ
  pub quiet : Bool

-- `nodes` is the map, in the order in which nodes were added.
pub record Graph : Type 0 where
  pub roots : List ℕ
  pub nodes : List Node

abbrev pub empty_graph : Graph
empty_graph = record { roots = []; nodes = [] }

abbrev pub find_node : ℕ → List Node → Option Node
find_node obj [] = none
find_node obj (n ∷ ns) = if n.obj == obj then some n else find_node obj ns

abbrev pub new_node : ℕ → Node
new_node obj = record { obj = obj; uses = []; quiet = false }

-- `g.nodes[obj]`, added where it is missing, for an `obj` that is neither a pointer nor a struct.
abbrev pub with_node : ℕ → List Node → List Node
with_node obj [] = new_node obj ∷ []
with_node obj (n ∷ ns) = if n.obj == obj then n ∷ ns else n ∷ with_node obj ns

-- usedByNode.uses[objNode] = struct{}{}
abbrev pub add_use : ℕ → ℕ → List Node → List Node
add_use obj used_by [] = []
add_use obj used_by (n ∷ ns) =
    if n.obj == used_by
    then record n { uses = if member obj n.uses then n.uses else n.uses ++ obj ∷ [] } ∷ ns
    else n ∷ add_use obj used_by ns

-- `g.markUsedBy(obj, field)` in `addObj`: the struct has its node, and a field is a variable.
unfoldable pub add_fields : ℕ → List ℕ → List Node → List Node
add_fields obj [] nodes = nodes
add_fields obj (field ∷ fields) nodes = add_fields obj fields (
    let nodes' = with_node field nodes in if obj == field then nodes' else add_use obj field nodes')

module _ (w : World) where
  -- The loop of `getNode` through pointers.
  unfoldable pub strip : ℕ → ℕ → ℕ
  strip zero obj = obj
  strip (suc fuel) obj = elim (w.pointer obj) [ none ↦ obj | some e ↦ strip fuel e ]

  unfoldable pub add_obj : ℕ → Graph → Graph
  unfolding add_fields
  add_obj obj g =
      let nodes = g.nodes ++ new_node obj ∷ [] in
      record g {
        nodes = elim (w.fields obj) [ none ↦ nodes | some fields ↦ add_fields obj fields nodes ];
      }

  -- The graph after `getNode(obj)`; the node is the one of `strip w.depth obj`.
  unfoldable pub get_node : ℕ → Graph → Graph
  unfolding strip add_obj
  get_node obj g =
      let obj' = strip w.depth obj in
      elim (find_node obj' g.nodes) [ some n ↦ g | none ↦ add_obj obj' g ]

  unfoldable pub mark_used_by : ℕ → ℕ → Graph → Graph
  unfolding get_node
  mark_used_by obj used_by g =
      let g' = get_node used_by (get_node obj g) in
      let o = strip w.depth obj in
      let u = strip w.depth used_by in
      if o == u then g' else record g' { nodes = add_use o u g'.nodes }

  -- c.graph.roots = append(c.graph.roots, c.graph.getNode(obj))
  unfoldable pub add_root : ℕ → Graph → Graph
  unfolding get_node
  add_root obj g =
      let g' = get_node obj g in record g' { roots = g'.roots ++ strip w.depth obj ∷ [] }

  abbrev quieten : ℕ → List Node → List Node
  quieten obj [] = []
  quieten obj (n ∷ ns) = if n.obj == obj then record n { quiet = true } ∷ ns else n ∷ quieten obj ns

  -- c.graph.getNode(obj).quiet = true
  unfoldable pub set_quiet : ℕ → Graph → Graph
  unfolding get_node
  set_quiet obj g =
      let g' = get_node obj g in record g' { nodes = quieten (strip w.depth obj) g'.nodes }

  -- `if n, ok := c.graph.nodes[v]; ok { n.quiet = true }`
  unfoldable pub set_quiet_known : ℕ → Graph → Graph
  set_quiet_known obj g = record g { nodes = quieten obj g.nodes }

  -- A loop that marks each of the objects as used by one.
  unfoldable pub mark_all_used_by : List ℕ → ℕ → Graph → Graph
  unfolding mark_used_by
  mark_all_used_by [] used_by g = g
  mark_all_used_by (obj ∷ objs) used_by g =
      mark_all_used_by objs used_by (mark_used_by obj used_by g)
