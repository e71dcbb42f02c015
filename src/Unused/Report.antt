-- ===== src/Unused/Report.antt =====
-- `Check` of unused/unused.go.
pub mod Exact
use go_tools.Common.{
  ℕ, zero, suc, ◌+◌, Bool, true, false, not, ◌&&◌, ◌||◌, Option, none, some, List, [], ◌∷◌, ◌++◌,
  if◌then◌else◌, ◌==◌, ◌>>=◌, Name, names_equal, has_prefix, bytes,
}
use go_tools.Common.Search.{member}
use go_tools.Unused.World.{World, Object}
use go_tools.Unused.Graph.{Node, Graph, empty_graph}
use go_tools.Unused.Roots.{Checker}
use go_tools.Unused.Uses.{each, interface_types}
use go_tools.Unused.Uses.Syntax.{Package, process_package}
use go_tools.Unused.Marking.{mark_nodes_used, link_types, mark_nodes_quiet}

-- A file of a package: its name, and the texts of its comments.
pub record File : Type 0 where
  pub filename : Name
  pub comments : List Name

-- strings.Contains(s, t)
abbrev contains : Name → Name → Bool
contains [] t = has_prefix [] t
contains (c ∷ s) t = has_prefix (c ∷ s) t || contains s t

unfoldable pub is_generated : Name → Bool
is_generated comment =
    contains comment (bytes "Code generated by") || contains comment (bytes "DO NOT EDIT")

-- The loop of `Check` over the files of a package, up to the one of the object.
unfoldable pub generated_file : Name → List File → Bool
unfolding is_generated
generated_file filename [] = false
generated_file filename (f ∷ files) =
    if not (names_equal f.filename filename)
    then generated_file filename files
    else elim f.comments [ [] ↦ false | comment ∷ _ ↦ is_generated comment ]

-- `base` is `filepath.Base`, `files` the files of a package, and `initial` the initial packages.
module _ (w : World) (base : Name → Name) (files : ℕ → List File) (initial : List ℕ) where
  -- The tests of `Check` on the object of a node that is neither used nor quiet.
  unfoldable pub is_reported : ℕ → Bool
  unfolding generated_file
  is_reported obj = elim (w.object obj) [
    | none ↦ false
    | some o ↦
        if not (member o.pkg initial)
        then false
        else if names_equal o.filename [] || names_equal (base o.filename) (bytes "C")
        then false
        else not (generated_file o.filename (files o.pkg))
  ]

  unfoldable pub report : List ℕ → List Node → List ℕ
  unfolding is_reported
  report used [] = []
  report used (n ∷ nodes) =
      let rest = report used nodes in
      if member n.obj used || n.quiet
      then rest
      else if is_reported n.obj
      then n.obj ∷ rest
      else rest

  -- `Check` from the marking on.
  unfoldable pub report_graph : Checker → Graph → Option (List ℕ)
  unfolding report
  report_graph c g = do
    used ← mark_nodes_used g.nodes (w.size + 1) g.roots []
    g' ← mark_nodes_quiet w c used g
    some (report used g'.nodes)

  abbrev all_types : List Package → List ℕ
  all_types [] = []
  all_types (p ∷ ps) = p.types ++ all_types ps

  -- `findExportedInterfaces`, by the interface `error` and all packages
  unfoldable pub exported_interfaces : Checker → ℕ → List Package → List ℕ
  exported_interfaces c error_type all =
      if c.whole_program then error_type ∷ interface_types w (all_types all) else []

  unfoldable pub check : Checker → ℕ → List Package → List Package → Option (List ℕ)
  unfolding report_graph exported_interfaces
  check c error_type all packages = do
    g ← each (process_package w c (exported_interfaces c error_type all)) packages empty_graph
    report_graph c (record g { nodes = link_types w g.nodes g.nodes })
