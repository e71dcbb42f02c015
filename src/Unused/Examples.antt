-- ===== src/Unused/Examples.antt =====
-- Tests of the checker for unused code, and the theorems at concrete inputs.
use go_tools.Common.{
  ℕ, ◌+◌, ◌<◌, ◌≡◌, refl, ◌↔◌, true, false, none, some, List, [], ◌∷◌, if◌then◌else◌, ◌==◌, ltb,
  leb, Name, bytes, arith, ◌&&◌,
}
use go_tools.Common.Search.{member, Below, Leads}
use go_tools.Unused.World.{World, Object, func}
use go_tools.Unused.Graph.{Node, Graph, mark_used_by, mark_all_used_by, add_root}
use go_tools.Unused.Roots.{Checker, topmost_scope, is_root, check_flags}
use go_tools.Unused.Uses.Syntax.{Package, process_package}
use go_tools.Unused.Uses.{process_def, process_use, process_types}
use go_tools.Unused.Marking.{uses_of, mark_nodes_used, mark_nodes_quiet, mark_obj_quiet, link_types}
use go_tools.Unused.Report.{report_graph, check}
use go_tools.Unused.Report.Exact.{IsUnused, report_graph_exact}

-- 0 is `main`, which calls 1, and 2 is called by nothing. 3, 4 and 5 are their types, 6, 7 and 8 their
-- scopes, 9 the scope of the file, 10 that of the package 11, and 12 the universe.
abbrev function_named : Name → ℕ → Object
function_named name n = record {
  class = func;
  name = name;
  exported = false;
  is_field = false;
  anonymous = false;
  type = n + 3;
  pkg = 11;
  parent = some 10;
  has_receiver = false;
  receiver_type = 0;
  param_count = 0;
  results = [];
  scope = some (n + 6);
  filename = bytes "main.go";
  innermost = 9;
}

abbrev three_functions : World
three_functions = record {
  object = λ n.
      if n == 0
      then some (function_named (bytes "main") 0)
      else if n == 1
      then some (function_named (bytes "used") 1)
      else if n == 2
      then some (function_named (bytes "left") 2)
      else none;
  pointer = λ n. none;
  elem = λ n. none;
  fields = λ n. none;
  methods = λ n. none;
  interface_methods = λ n. none;
  underlying = λ n. n;
  intuitive_methods = λ n. [];
  method_set = λ n. [];
  implements = λ n m. false;
  pointer_to = λ n. n;
  scope_parent = λ n.
      if leb 6 n && ltb n 9
      then some 9
      else if n == 9
      then some 10
      else if n == 10
      then some 12
      else none;
  scope_objects = λ n. [];
  scope_children = λ n. [];
  is_scope = λ n. leb 6 n && ltb n 11;
  universe = 12;
  package_scope = λ n. 10;
  package_name = λ n. bytes "main";
  depth = 4;
  size = 13;
}

abbrev check_all : Checker
check_all = record {
  constants = true;
  fields = true;
  functions = true;
  types = true;
  variables = true;
  whole_program = false;
  consider_reflection = false;
}

abbrev main_package : Package
main_package = record {
  pkg = 11;
  defs = 0 ∷ 1 ∷ 2 ∷ [];
  uses = (6, 1) ∷ [];
  types = [];
  selections = [];
  syntax = [];
}

check_test :
    check three_functions (λ n. n) (λ p. []) (11 ∷ []) check_all 12 [] (main_package ∷ [])
    ≡ some (2 ∷ [])
unfolding check process_package process_def topmost_scope process_use process_types mark_nodes_used
    mark_used_by is_root mark_all_used_by add_root link_types mark_nodes_quiet check_flags
check_test = refl

abbrev node_with : ℕ → List ℕ → Node
node_with obj uses = record { obj = obj; uses = uses; quiet = false }

abbrev small_graph : Graph
small_graph = record {
  roots = 0 ∷ [];
  nodes = node_with 0 (1 ∷ []) ∷ node_with 1 [] ∷ node_with 2 [] ∷ [];
}

uses-Below : (x : ℕ) → x < 13 → Below 13 (uses_of small_graph.nodes x)
uses-Below x h y m = ground arith

roots-Below : Below 13 small_graph.roots
roots-Below x m = ground arith

quiets :
    (used : List ℕ)
    → (g' : Graph) × (mark_nodes_quiet three_functions check_all used small_graph ≡ some g')
unfolding mark_nodes_quiet mark_obj_quiet check_flags
quiets used = (small_graph, ground arith)

report_graph_exact_example :
    (out : List ℕ) × (used : List ℕ) × (quieted : Graph) × (report_graph three_functions
        (λ n. n)
        (λ p. [])
        (11 ∷ [])
        check_all
        small_graph
      ≡ some out)
    × ((x : ℕ)
        → (member x used ≡ true)
          ↔ ((t : ℕ) × (member t small_graph.roots ≡ true) × Leads (uses_of small_graph.nodes) t x))
    × (mark_nodes_quiet three_functions check_all used small_graph ≡ some quieted)
    × ((x : ℕ)
        → (member x out ≡ true)
          ↔ IsUnused three_functions (λ n. n) (λ p. []) (11 ∷ []) small_graph quieted x)
report_graph_exact_example =
    report_graph_exact three_functions (λ n. n) (λ p. []) (11 ∷ []) check_all small_graph uses-Below
      roots-Below quiets
