-- ===== src/Vrp/Examples/Building.antt =====
-- The constraints of a small function, and the theorem about them at it.
use go_tools.Common.{
  ◌+ℤ◌, ◌-ℤ◌, neg_ℤ, ◌≡◌, refl, ap, subst, ◌<◌, length, arith, ==_iff, ◌≤◌, ◌+◌, ◌==◌, some, none,
  Option, List, [], ◌∷◌, ℕ, true, ℤ, pos, if◌then◌else◌,
}
use go_tools.Vrp.Z
use go_tools.Vrp.Z.{finite, p_infinity}
use go_tools.Vrp.Interval.{IntInterval, new_int_interval}
use go_tools.Vrp.Constraint.{Constraint, int_add, int_interval, phi, result}
use go_tools.Vrp.Range.{Value}
use go_tools.Vrp.Token.{add}
use go_tools.Vrp.Build.{
  Const, int_const, Instruction, bin_op, phi_node, constraints, constants, constant_constraints,
  instructions, instr_constraints, bin_op_constraints, is_supported_type, unique,
}
use go_tools.Vrp.Build.Results.{number}
use go_tools.Vrp.Build.Definitions.{defined, constant, constraints-number}
use go_tools.Vrp.Constraint.{operands, futures}
use go_tools.Vrp.Range.{Range, int_range, Ranges, store, union}
use go_tools.Vrp.Solve.{Orders, scc_edges}
use go_tools.Vrp.Eval.{eval, range_as, eval_phi, eval_arithmetic}
use go_tools.Vrp.Solver.{settle, refine_loop, refine, finish, check_overflow}
use go_tools.Vrp.Widen.{
  widen_int_interval, first_at_most, first_at_least, widen_bounds, narrow_int_interval,
}
use go_tools.Vrp.Future.{future_is_known}
use go_tools.Vrp.Interval
use go_tools.Common.Search.{member, Below}
use go_tools.Vrp.Graph.{Graph, value, constraint, empty_graph, add_constraints, successors}
use go_tools.Vrp.Graph.Arrows.{arrows}
use go_tools.Vrp.Graph.Edges.{IsGraphOf, add_constraints-IsGraphOf, successors-Below}
use go_tools.Vrp.Graph.Components.{Tarjan, find_sccs}
use go_tools.Vrp.Graph.Components.Correct.{AreComponents, find_sccs-AreComponents}
use go_tools.Vrp.Solve.Components.{analyse}
use go_tools.Vrp.Examples.{all_int32}
use go_tools.Vrp.Examples.Solving.{call_of_len}

-- 1 is the constant 3; `x := φ(1, y, y); y := x + 3`, with 2 for x and 4 for y.
abbrev three : Value → Option Const
three v = if v == 1 then some (int_const (pos 3)) else none

abbrev loop : List Instruction
loop =
    record { value = 2; operands = 1 ∷ 4 ∷ 4 ∷ []; instr = phi_node (1 ∷ 4 ∷ 4 ∷ []) }
    ∷ record { value = 4; operands = 2 ∷ 1 ∷ []; instr = bin_op add 2 1 }
    ∷ []

abbrev pub exactly_three : IntInterval
exactly_three = record { known = true; lower = finite (pos 3); upper = finite (pos 3) }

abbrev pub loop_constraints : List Constraint
loop_constraints = int_interval exactly_three 1 ∷ phi (1 ∷ 4 ∷ []) 2 ∷ int_add 2 1 4 ∷ []

constraints_test : constraints all_int32 call_of_len three loop ≡ some loop_constraints
unfolding constraints constants constant_constraints instructions instr_constraints
    bin_op_constraints is_supported_type unique new_int_interval Z.cmp
constraints_test = refl

constraints-number_example : number 4 loop_constraints ≤ constant three 4 + defined 4 loop
constraints-number_example =
    constraints-number all_int32 call_of_len three 4 loop loop_constraints (tt, (tt, tt))
      constraints_test

-- The graph of the loop, whose vertices are the constraints 0, 1 and 2 and the values 1, 4 and 2.
abbrev loop_graph : Graph
loop_graph = add_constraints 0 loop_constraints empty_graph

loop_vertices :
    loop_graph.vertices
    ≡ constraint 0 ∷ value 1 ∷ constraint 1 ∷ value 4 ∷ value 2 ∷ constraint 2 ∷ []
unfolding add_constraints operands futures result
loop_vertices = refl

add_constraints-IsGraphOf_example : IsGraphOf (arrows 0 loop_constraints) loop_graph
add_constraints-IsGraphOf_example = add_constraints-IsGraphOf loop_constraints

abbrev in_order : List ℕ
in_order = 0 ∷ 1 ∷ 2 ∷ 3 ∷ 4 ∷ 5 ∷ []

in_order-Below : Below 6 in_order
in_order-Below x m =
    ground (arith, ==_iff x 0, ==_iff x 1, ==_iff x 2, ==_iff x 3, ==_iff x 4, ==_iff x 5)

in_order-whole : (x : ℕ) → x < 6 → member x in_order ≡ true
in_order-whole x l =
    ground (arith, ==_iff x 0, ==_iff x 1, ==_iff x 2, ==_iff x 3, ==_iff x 4, ==_iff x 5)

loop-Below : (x : ℕ) → x < 6 → Below 6 (successors loop_graph.edges x)
loop-Below x l =
    subst (λ k. Below k (successors loop_graph.edges x)) (ap length loop_vertices)
      (successors-Below loop_constraints x)

find_sccs-AreComponents_example :
    (t : Tarjan) × (sccs : List (List ℕ)) × (find_sccs
        (successors loop_graph.edges)
        7
        in_order
        in_order
      ≡ some (t, sccs))
    × AreComponents (successors loop_graph.edges) 6 in_order t sccs
find_sccs-AreComponents_example =
    find_sccs-AreComponents (successors loop_graph.edges) 6 loop-Below 7 in_order in_order
      (omega arith) in_order-Below in_order-Below in_order-whole

-- x is at least 3 and y at least 6.
abbrev at_least : ℤ → Range
at_least n = int_range (record { known = true; lower = finite n; upper = p_infinity })

abbrev loop_ranges : Ranges
loop_ranges =
    (1, some (int_range exactly_three))
    ∷ (2, some (at_least (pos 3)))
    ∷ (4, some (at_least (pos 6)))
    ∷ []

abbrev in_all : Orders
in_all = record { entries = in_order; futures = []; actives = in_order; rounds = 50 }

analyse_test :
    analyse all_int32 three (λ zs. zs) loop_constraints in_order in_order (λ scc. in_all)
    ≡ some loop_ranges
unfolding analyse add_constraints operands futures result find_sccs successors Z.add Z.sub Z.cmp
    scc_edges eval settle range_as store eval_phi union Interval.union future_is_known
    eval_arithmetic Interval.add new_int_interval ◌+ℤ◌ refine_loop refine finish widen_int_interval
    first_at_most first_at_least widen_bounds Z.min_z Z.max_z ◌-ℤ◌ narrow_int_interval
    check_overflow neg_ℤ
analyse_test = refl
