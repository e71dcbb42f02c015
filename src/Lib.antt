-- ===== src/Lib.antt =====
-- The static analysis tools of honnef.co/go/tools, as definitions that run and theorems about them.
--
-- Value range propagation (staticcheck/vrp) computes, for the values of a function in SSA form, an
-- interval that holds the value, or the length of a string or slice, or the size of a channel. A
-- constraint says how a value comes from others; the solver evaluates constraints over a map of ranges,
-- widens and narrows the intervals of a cycle, and resolves comparisons (futures) on the way.
--
--   Common          shared names, integers, panics as `Option`; no code of the repository
--   Vrp/Z           `Z`, the integers with two infinities (staticcheck/vrp/int.go)
--   Vrp/Interval    `IntInterval` and its operations (int.go)
--   Vrp/Token       the comparison operators, `invertToken`, `flipToken` (vrp.go)
--   Vrp/Range       `Range`, `Ranges`, the string, slice and channel intervals (vrp.go, string.go,
--                   slice.go, channel.go)
--   Vrp/Constraint  the constraints, their operands and futures
--   Vrp/Eval        `Eval` of every constraint; Vrp/Eval/Sound: about it in a run of the program;
--                   Vrp/Eval/Answers, Vrp/Eval/Typed: about it on ranges that may be unknown
--   Vrp/Future      `Resolve` of the two constraints that are futures
--   Vrp/Widen       the widening and narrowing of an interval (vrp.go)
--   Vrp/Sigma       `sigmaInteger`, `sigmaString`, `sigmaSlice`: constraints of branches (vrp.go)
--   Vrp/Build       `BuildGraph` (vrp.go): the constraints of constants and instructions, those of calls
--                   in Vrp/Build/Call; Vrp/Build/Results, Vrp/Build/Definitions: about their number
--   Vrp/Graph       `AddEdge` and the edges of `BuildGraph`; Vrp/Graph/Arrows, Vrp/Graph/Edges: about them
--   Vrp/Graph/Components
--                   `FindSCCs`; its children Invariant, Edge, Call, Pop, Exact, Members and Correct are
--                   about it
--   Vrp/Solver      `Graph.widen`, `Graph.narrow`, the worklist loops of `Solve`, its defaults for a
--                   component of one value, its last loop (vrp.go)
--   Vrp/Solver/Ends the loop with `widen`: Frame, Loop and Rounds are about its rounds
--   Vrp/Solve       `uses`, `entries`, `actives`, `resolveFutures`, and the loops of `Solve` over the
--                   vertices and edges of a component; Vrp/Solve/Components: `Solve` itself
--   Vrp/Examples    tests, and the theorems at concrete inputs
--
-- structlayout-optimize (cmd/structlayout-optimize) reorders the fields of a struct and computes the
-- padding between them.
--
--   Layout          `Field`, `align`, `offsetsof`, `size`, `pad`, `byAlignAndSize.Less` (main.go)
--   Layout/Machine  int64 in two's complement
--   Layout/Align    about `align` and `Less`
--   Layout/Pad      about `offsetsof` and the loop of `pad`; Layout/Whole: about `pad`
--   Layout/Combine  `combine`
--   Layout/Reorder  what `main` does between reading and printing; `sort.Sort` is a parameter
--   Layout/Examples tests, and the theorems at concrete inputs
--
-- The linter (lint) filters the problems that the checks report by the ignores of the source and of the
-- command line.
--
--   Lint            the ignores, `Linter.ignore`, the loops of `Lint` over problems and over unmatched
--                   directives (lint/lint.go); package path/filepath is a parameter
--   Lint/Directive  `parseDirective` and the loop of `Lint` over the comments; Lint/Directive/Parsing:
--                   about what is read of a directive
--   Lint/Order      `byPosition.Less`, and what `Lint` does once the checks have run; its child
--                   Lint/Order/Determined is about the sorted problems
--   Lint/Marks      about `Linter.ignore` and the loop over problems
--   Lint/Examples   tests, and the theorems at concrete inputs
--
-- Package functions finds out about a function in SSA form whether it returns, is a stub, is pure or
-- always answers a nil error, which concrete types it returns, and where its loops are.
--
--   Functions           the five files of functions/, on the instructions as they read them
--   Functions/Loops     `findLoops` against natural loops
--   Functions/Examples  tests, and the theorem at a concrete input
--
-- The checker for unused code (unused/unused.go) builds a graph of what uses what, marks what its roots
-- lead to, and reports the rest.
--
--   Unused/World    what the checker reads of go/types, go/ast and go/loader, a parameter
--   Unused/Graph    `graph`: `getNode`, `addObj`, `markUsedBy`
--   Unused/Roots    `isRoot`, `checkFlags`, `topmostScope`
--   Unused/Uses     `processDefs`, `processUses`, `processTypes`; Unused/Uses/Syntax: `processSelections`
--                   and the functions of `processAST`
--   Unused/Marking  `markNodesUsed`, `markNodesQuiet`; Unused/Marking/Exact: about the former
--   Unused/Report   `Check`; Unused/Report/Exact: about what it reports
--   Unused/Examples tests, and the theorems at concrete inputs
--
-- The checks of staticcheck (staticcheck/lint.go, rules.go) look for mistakes in functions in SSA form;
-- some of them ask the ranges.
--
--   Staticcheck/Constants      `consts`; Uniq, Covered, Calls and Exact below it are about it
--   Staticcheck/Predetermined  `CheckPredeterminedBooleanExprs`; Counting and Exact are about it
--   Staticcheck/Appends        `CheckIneffectiveAppend`; Walk and Exact are about it
--   Staticcheck/Ranged         `CheckSliceOutOfBounds`, `CheckDiffSizeComparison`, `IntValue`,
--                              `UnbufferedChannel`; Sound and Rules are about them
--   Staticcheck/Recursion      `CheckInfiniteRecursion`; Paths is about it
--   Staticcheck/Examples       tests, and the theorems at concrete inputs
--
-- stylecheck checks the style of names, among others.
--
--   Stylecheck/Names     `lintName` (stylecheck/names.go): initialisms and underscores in a name; Parts,
--                        Letters and Rounds are about it
--   Stylecheck/Examples  tests, and the theorem at a concrete name
--
-- How the code is read. `*big.Int` is an integer without bound. A function that may panic returns an
-- `Option`, whose `none` is the panic; a nil interface is the `none` of an `Option Range`. A value of
-- package ssa is a number, its identity; its type is a parameter (`Types`), since ssa and go/types are
-- not code of these packages. `Add` and `Sub` of `Z` call each other at most once more, so they run on
-- fuel 2, and the theorems that their results are there show that this is enough. The loops over
-- worklists (`refine_loop`) run on fuel that a caller gives; Vrp/Solver/Ends bounds what the loop with
-- `widen` needs, by the length of the stack, the values and the entries in the list of constants. The
-- search of `FindSCCs` runs on fuel for the depth of its calls, one more than there are vertices. The calls of
-- `consts` and `walkRefs` run on fuel for their depth, which their theorems bound. A loop
-- over a map takes the order of its keys as an argument, since Go leaves it open.
--
-- Not modelled: text output (`String`, `Graphviz`), the checks that match syntax trees, package
-- loading and the command lines, and the forks of packages of the Go project (ssa, callgraph, gcsizes).
mod Common
pub mod Staticcheck
pub mod Vrp
pub mod Layout
pub mod Lint
pub mod Functions
pub mod Stylecheck
pub mod Unused
