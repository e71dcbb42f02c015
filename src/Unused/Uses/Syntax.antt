-- ===== src/Unused/Uses/Syntax.antt =====
-- What the syntax of a package uses in unused/unused.go: `processSelections` and `processAST`.
use go_tools.Common.{
  ℕ, Bool, not, Option, none, some, List, [], ◌∷◌, if◌then◌else◌, ◌>>=◌, Name, names_equal, bytes,
  has_prefix,
}
use go_tools.Unused.World.{World, Selection}
use go_tools.Unused.Graph.{Graph, mark_used_by, mark_all_used_by, add_root}
use go_tools.Unused.Roots.{Checker, is_pkg_name, topmost_scope}
use go_tools.Unused.Uses.{
  each, type_of_object, mark_fields, get_field, process_def, process_use, process_types,
}

-- A selector expression: its operand, the innermost scope of its position, the type of the receiver,
-- the selection, and whether that is of a method (`MethodVal`) and not of a field (`FieldVal`).
pub record Selector : Type 0 where
  pub operand : ℕ
  pub innermost : ℕ
  pub recv : ℕ
  pub selection : Selection
  pub is_method_value : Bool

-- The first argument of a call: its type, and whether that is `unsafe.Pointer`.
pub record Argument : Type 0 where
  pub type : ℕ
  pub is_unsafe : Bool

-- What the functions read of the nodes of a syntax tree. A call has the type of what it calls; `rpc` is
-- a call of a method of package net/rpc, by the name and the types of the arguments. A value of a
-- variable declaration is the objects of its identifiers.
pub data Syntax : Type 0 where
  conversion : ℕ → List Argument → Syntax
  rpc : Name → List ℕ → Syntax
  composite : ℕ → Bool → Syntax
  function : List Name → ℕ → Syntax
  variables : List ℕ → List (List ℕ) → Syntax
  array : Option ℕ → ℕ → Syntax

abbrev pub all_but_last {ℓ} : {A : Type ℓ} → List A → List A
all_but_last [] = []
all_but_last (x ∷ []) = []
all_but_last (x ∷ (y ∷ xs)) = x ∷ all_but_last (y ∷ xs)

module _ (w : World) where
  -- The loop of `processSelections` through embedded fields.
  selected_fields : ℕ → ℕ → List ℕ → Graph → Option Graph
  selected_fields operand typ [] g = some g
  selected_fields operand typ (idx ∷ indices) g = do
    f ← get_field w w.depth typ idx
    t ← type_of_object w f
    selected_fields operand t indices (mark_used_by w f operand g)

  unfoldable pub process_selection : ℕ → Selector → Graph → Option Graph
  unfolding selected_fields
  process_selection pkg s g = do
    scope ← topmost_scope w s.innermost pkg
    let g' = mark_used_by w s.selection.obj s.operand (mark_used_by w s.operand scope g)
    elim s.selection.index [
      | [] ↦ some g'
      | i ∷ rest ↦ elim rest [
        | [] ↦ some g'
        | j ∷ more ↦
            selected_fields s.operand s.recv
              (if s.is_method_value then all_but_last (i ∷ (j ∷ more)) else i ∷ (j ∷ more)) g'
      ]
    ]

  -- `dereferenceType`
  abbrev dereference : ℕ → ℕ
  dereference typ = elim (w.pointer typ) [ none ↦ typ | some e ↦ e ]

  mark_pairs : List ℕ → List ℕ → Graph → Option Graph
  mark_pairs [] src g = some g
  mark_pairs (d ∷ dst) [] g = none
  mark_pairs (d ∷ dst) (s ∷ src) g = mark_pairs dst src (mark_used_by w s d (mark_used_by w d s g))

  -- The struct that a conversion is to, by the type of what is called.
  abbrev destination : ℕ → Option ℕ
  destination typ = elim (w.methods typ) [
    | some _ ↦ some (w.underlying typ)
    | none ↦ elim (w.pointer typ) [ none ↦ none | some e ↦ some (w.underlying e) ]
  ]

  unfoldable pub process_conversion : ℕ → List Argument → Graph → Option Graph
  unfolding mark_pairs
  process_conversion typ args g = elim (destination typ) [
    | none ↦ some g
    | some dst ↦ elim (w.fields dst) [
      | none ↦ some g
      | some fields ↦ elim args [
        | [] ↦ none
        | arg ∷ _ ↦
            if arg.is_unsafe
            then some (mark_all_used_by w fields dst g)
            else elim (w.fields (w.underlying (dereference arg.type))) [
              | none ↦ some g
              | some sources ↦ mark_pairs fields sources g
            ]
      ]
    ]
  ]

  -- The type whose methods a call of `Register` or `RegisterName` uses.
  registered : Name → List ℕ → Option ℕ
  registered name (a ∷ []) = if names_equal name (bytes "Register") then some a else none
  registered name (a ∷ (b ∷ [])) = if names_equal name (bytes "RegisterName") then some b else none
  registered name _ = none

  abbrev pub selection_objects : List Selection → List ℕ
  selection_objects [] = []
  selection_objects (s ∷ ss) = s.obj ∷ selection_objects ss

  unfoldable pub process_reflect_callers : Name → List ℕ → Graph → Graph
  unfolding registered
  process_reflect_callers name args g = elim (registered name args) [
    | none ↦ g
    | some typ ↦ mark_all_used_by w (selection_objects (w.method_set typ)) typ g
  ]

  -- `has_positional` is `isBasicStruct` of the elements.
  unfoldable pub process_composite_literal : ℕ → Bool → Graph → Graph
  process_composite_literal typ has_positional g =
      let t : ℕ = elim (w.methods typ) [ none ↦ typ | some _ ↦ w.underlying typ ] in
      elim (w.fields t) [ none ↦ g | some _ ↦ if has_positional then mark_fields w t g else g ]

  -- The comments before a function, up to the first that exports nothing.
  unfoldable pub process_cgo_exported : List Name → ℕ → Graph → Graph
  process_cgo_exported [] obj g = g
  process_cgo_exported (comment ∷ doc) obj g =
      let g' = process_cgo_exported doc obj (add_root w obj g) in
      if not (has_prefix comment (bytes "//go:cgo_export_")) then g else g'

  identifier_use : ℕ → ℕ → Graph → Option Graph
  identifier_use name obj g = do
    o ← w.object obj
    some (if is_pkg_name o then g else mark_used_by w obj name g)

  unfoldable pub process_variable_declaration : List ℕ → List (List ℕ) → Graph → Option Graph
  unfolding identifier_use
  process_variable_declaration [] values g = some g
  process_variable_declaration (name ∷ names) [] g = some g
  process_variable_declaration (name ∷ names) (value ∷ values) g = do
    g' ← each (identifier_use name) value g
    process_variable_declaration names values g'

  unfoldable pub process_array_constants : Option ℕ → ℕ → Graph → Graph
  process_array_constants none typ g = g
  process_array_constants (some ident) typ g = mark_used_by w ident typ g

  -- `fn` of `processAST`, on the function that takes the node.
  unfoldable pub process_node : Syntax → Graph → Option Graph
  process_node (conversion typ args) g = process_conversion typ args g
  process_node (rpc name args) g = some (process_reflect_callers name args g)
  process_node (composite typ has_positional) g =
      some (process_composite_literal typ has_positional g)
  process_node (function doc obj) g = some (process_cgo_exported doc obj g)
  process_node (variables names values) g = process_variable_declaration names values g
  process_node (array ident typ) g = some (process_array_constants ident typ g)

-- What the checker reads of a package.
pub record Package : Type 0 where
  pub pkg : ℕ
  pub defs : List ℕ
  pub uses : List (ℕ × ℕ)
  pub types : List ℕ
  pub selections : List Selector
  pub syntax : List Syntax

-- The body of the loop of `Check` over the packages.
unfoldable pub process_package : World → Checker → List ℕ → Package → Graph → Option Graph
unfolding process_selection process_node
process_package w c interfaces p g = do
  g1 ← each (process_def w c p.pkg) p.defs g
  g2 ← each (process_use w c p.pkg) p.uses g1
  g3 ← process_types w c interfaces p.pkg p.types g2
  g4 ← each (process_selection w p.pkg) p.selections g3
  each (process_node w) p.syntax g4
