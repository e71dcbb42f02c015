-- ===== src/Unused/Marking.antt =====
-- `markNodesUsed`, `markNodesQuiet` and `markObjQuiet` of unused/unused.go.
pub mod Exact
use go_tools.Common.{
  ℕ, zero, suc, ◌+◌, Bool, true, false, not, ◌&&◌, Option, none, some, List, [], ◌∷◌, ◌++◌,
  if◌then◌else◌, ◌==◌, ◌>>=◌,
}
use go_tools.Common.Search.{member}
use go_tools.Unused.World.{World, Object, Class, var, const, func, type_name, pkg_name, other_class}
use go_tools.Unused.Graph.{Node, Graph, find_node, add_use, set_quiet, set_quiet_known}
use go_tools.Unused.Roots.{Checker, is_function, check_flags, is_scope_of}
use go_tools.Unused.Uses.{each}

-- `node.uses`, of the node of an object
abbrev pub uses_of : List Node → ℕ → List ℕ
uses_of nodes obj = elim (find_node obj nodes) [ none ↦ [] | some n ↦ n.uses ]

-- `markNodesUsed`: `used` holds the nodes whose flag is set. The fuel bounds the depth of the
-- recursion; `none` means that it ran out.
unfoldable pub mark_nodes_used : List Node → ℕ → List ℕ → List ℕ → Option (List ℕ)
mark_nodes_used nodes fuel [] used = some used
mark_nodes_used nodes zero (node ∷ rest) used = none
mark_nodes_used nodes (suc fuel) (node ∷ rest) used = elim (member node used) [
  | true ↦ mark_nodes_used nodes (suc fuel) rest used
  | false ↦ do
    used' ← mark_nodes_used nodes fuel (uses_of nodes node) (used ++ node ∷ [])
    mark_nodes_used nodes (suc fuel) rest used'
]

module _ (w : World) where
  -- The loop of `Check` that lets every object use its type, over the nodes `todo`.
  unfoldable pub link_types : List Node → List Node → List Node
  link_types [] nodes = nodes
  link_types (n ∷ todo) nodes = link_types todo (elim (w.object n.obj) [
    | none ↦ nodes
    | some o ↦ elim (find_node o.type nodes) [ none ↦ nodes | some _ ↦ add_use o.type n.obj nodes ]
  ])

  quiet_objects : List ℕ → Graph → Graph
  quiet_objects [] g = g
  quiet_objects (v ∷ vs) g = quiet_objects vs (set_quiet_known w v g)

  -- `markObjQuiet` of a scope; `none` means that scopes are nested deeper than the fuel.
  quiet_scope : ℕ → ℕ → Graph → Option Graph
  unfolding quiet_objects
  quiet_scope zero scope g = none
  quiet_scope (suc fuel) scope g =
      let inside =
        each (quiet_scope fuel) (w.scope_children scope)
          (quiet_objects (w.scope_objects scope) g) in
      if is_scope_of (w.scope_parent scope) w.universe then some g else inside

  quiet_function : ℕ → Graph → Option Graph
  unfolding quiet_scope
  quiet_function obj g = do
    o ← w.object obj
    elim o.scope [ none ↦ some g | some s ↦ quiet_scope w.depth s g ]

  quiet_method : ℕ → Graph → Option Graph
  unfolding quiet_function
  quiet_method meth g = quiet_function meth (set_quiet w meth g)

  quiet_field : ℕ → Graph → Option Graph
  quiet_field field g = do _ ← find_node field g.nodes; some (set_quiet_known w field g)

  unfoldable pub mark_obj_quiet : ℕ → Graph → Option Graph
  unfolding quiet_scope quiet_function quiet_method quiet_field
  mark_obj_quiet obj g = elim (w.methods obj) [
    | some methods ↦ each quiet_method methods g
    | none ↦ elim (w.fields obj) [
      | some fields ↦ each quiet_field fields g
      | none ↦ elim (w.object obj) [
        | some o ↦ if is_function o then quiet_function obj g else some g
        | none ↦ if w.is_scope obj then quiet_scope w.depth obj g else some g
      ]
    ]
  ]

  quiet_node : Checker → List ℕ → Node → Graph → Option Graph
  unfolding mark_obj_quiet
  quiet_node c used n g = if member n.obj used then some g else elim (w.object n.obj) [
    | none ↦ mark_obj_quiet n.obj g
    | some o ↦
        if not (check_flags c o) then some (set_quiet_known w n.obj g) else mark_obj_quiet n.obj g
  ]

  -- `markNodesQuiet`. Nodes that it adds itself are not visited.
  unfoldable pub mark_nodes_quiet : Checker → List ℕ → Graph → Option Graph
  unfolding quiet_node
  mark_nodes_quiet c used g = each (quiet_node c used) g.nodes g
