-- ===== src/Unused/Uses.antt =====
-- What uses what in unused/unused.go: the definitions, uses, types and selections of a package.
pub mod Syntax
use go_tools.Common.{
  ℕ, zero, suc, ◌-◌, Bool, true, false, not, ◌&&◌, ◌||◌, Option, none, some, List, [], ◌∷◌, ◌++◌,
  if◌then◌else◌, ◌==◌, ◌>>=◌, Name, names_equal, bytes, get_elem?, length, ltb,
}
use go_tools.Unused.World.{
  World, Object, Selection, Class, var, const, func, type_name, pkg_name, other_class,
}
use go_tools.Unused.Graph.{Graph, get_node, mark_used_by, mark_all_used_by, add_root, set_quiet}
use go_tools.Unused.Roots.{
  Checker, is_function, is_variable, is_type, is_pkg_name, is_pkg_scope, is_scope_of, is_root,
  topmost_scope,
}

-- One step after another; `none` is a panic.
abbrev pub each {ℓ} : {A : Type ℓ} → (A → Graph → Option Graph) → List A → Graph → Option Graph
each f [] g = some g
each f (x ∷ xs) g = do g' ← f x g; each f xs g'

module _ (w : World) where
  -- `f.Type()` of an object that is there
  abbrev pub type_of_object : ℕ → Option ℕ
  type_of_object obj = do o ← w.object obj; some o.type

  unfoldable pub mark_fields : ℕ → Graph → Graph
  mark_fields typ g = elim (w.fields (w.underlying typ)) [
    | none ↦ g
    | some fields ↦ mark_all_used_by w fields typ g
  ]

  -- `isNoCopyType`: the method of the sentinel type, where it is one.
  unfoldable pub no_copy_method : ℕ → Option ℕ
  no_copy_method typ = do
    fields ← w.fields (w.underlying typ)
    methods ← w.methods typ
    elim fields [
      | _ ∷ _ ↦ none
      | [] ↦ elim methods [
        | [] ↦ none
        | m ∷ rest ↦ elim rest [
          | _ ∷ _ ↦ none
          | [] ↦ do
            o ← w.object m
            if names_equal o.name (bytes "Lock") && o.param_count == 0 && length o.results == 0
                then some m
                else none
        ]
      ]
    ]

  no_copy_field : ℕ → ℕ → Graph → Option Graph
  unfolding no_copy_method
  no_copy_field typ field g = do
    t ← type_of_object field
    elim (no_copy_method t) [
      | none ↦ some g
      | some m ↦ some (mark_used_by w m t (mark_used_by w field typ g))
    ]

  unfoldable pub use_no_copy_fields : ℕ → Graph → Option Graph
  unfolding no_copy_field
  use_no_copy_fields typ g = elim (w.fields (w.underlying typ)) [
    | none ↦ some g
    | some fields ↦ each (no_copy_field typ) fields g
  ]

  exported_member : ℕ → ℕ → Graph → Option Graph
  exported_member typ obj g = do
    o ← w.object obj
    some (if o.exported then mark_used_by w obj typ g else g)

  unfoldable pub use_exported_fields : ℕ → Graph → Option Graph
  unfolding exported_member
  use_exported_fields typ g = elim (w.fields (w.underlying typ)) [
    | none ↦ some g
    | some fields ↦ each (exported_member typ) fields g
  ]

  any_exported : List ℕ → Option Bool
  any_exported [] = some false
  any_exported (m ∷ ms) = do o ← w.object m; rest ← any_exported ms; some (o.exported || rest)

  embedded_field : ℕ → ℕ → Graph → Option Graph
  unfolding any_exported
  embedded_field typ field g = do
    o ← w.object field
    exported ← any_exported (w.intuitive_methods o.type)
    some (if o.anonymous && exported then mark_used_by w field typ g else g)

  unfoldable pub use_exported_methods : ℕ → Graph → Option Graph
  unfolding exported_member embedded_field
  use_exported_methods typ g = elim (w.methods typ) [
    | none ↦ some g
    | some _ ↦ do
      g' ← each (exported_member typ) (w.intuitive_methods typ) g
      elim (w.fields (w.underlying typ)) [
        | none ↦ some g'
        | some fields ↦ each (embedded_field typ) fields g'
      ]
  ]

  module _ (c : Checker) (pkg : ℕ) where
    -- `if obj, ok := obj.(*types.TypeName); ok { ... }`
    unfoldable pub define_type : ℕ → Object → Graph → Option Graph
    define_type obj o g = if not (is_type o) then some g else (do
      let t = o.type
      let g' = mark_used_by w obj t (mark_used_by w t obj (mark_used_by w (w.underlying t) t g))
      g'' ←
          if not c.whole_program || c.consider_reflection then use_exported_fields t g' else some g'
      if not c.whole_program then use_exported_methods t g'' else some g'')

    -- The `switch` on variables, constants, functions and type names.
    unfoldable pub define_name : ℕ → Object → Graph → Option Graph
    define_name obj o g = do
      let g' = if o.exported then mark_used_by w o.type obj g else g
      if names_equal o.name (bytes "_")
          then (do
            scope ← topmost_scope w o.innermost pkg
            let quiet = set_quiet w obj g'
            some (
                if scope == w.package_scope pkg
                then add_root w obj quiet
                else mark_used_by w obj scope quiet))
          else if is_variable o
          then elim o.parent [
            | none ↦ some g'
            | some p ↦ if p == w.package_scope o.pkg then some g' else (do
              scope ← topmost_scope w p o.pkg
              some (mark_used_by w o.type obj (mark_used_by w obj scope g')))
          ]
          else some g'

    abbrev has_name : Class → Bool
    has_name pkg_name = false
    has_name other_class = false
    has_name _ = true

    unfoldable pub define_function : ℕ → Object → Graph → Option Graph
    define_function obj o g = if not (is_function o) then some g else (do
      let g' = mark_all_used_by w o.results obj (mark_used_by w obj o.type g)
      elim o.scope [
        | none ↦ some g'
        | some s ↦ do scope ← topmost_scope w s o.pkg; some (mark_used_by w scope obj g')
      ])

    unfoldable pub process_def : ℕ → Graph → Option Graph
    unfolding define_type define_name define_function
    process_def obj g = do
      o ← w.object obj
      g1 ← define_type obj o (get_node w obj g)
      g2 ← if has_name o.class then define_name obj o g1 else some g1
      g3 ← define_function obj o g2
      some (
          if is_root w c o
          then (let g4 = add_root w obj g3 in
              if is_pkg_name o then mark_used_by w (w.package_scope o.pkg) obj g4 else g4)
          else g3)

    -- An identifier of `pkg.Uses`, by the innermost scope of its position and the object that it uses.
    unfoldable pub process_use : ℕ × ℕ → Graph → Option Graph
    process_use (innermost, used) g = do
      o ← w.object used
      if is_pkg_name o then some g else (do
        scope ← topmost_scope w innermost pkg
        let g' = if scope == w.package_scope pkg then g else mark_used_by w used scope g
        some (elim o.class [
          | var ↦ mark_used_by w o.type used g'
          | const ↦ mark_used_by w o.type used g'
          | _ ↦ g'
        ]))

  -- `getField`; `none` is its panic, or the nil that no caller expects.
  unfoldable pub get_field : ℕ → ℕ → ℕ → Option ℕ
  get_field zero typ idx = none
  get_field (suc fuel) typ idx =
      let through = λ (e : ℕ). get_field fuel e idx in
      elim (w.pointer typ) [
        | some e ↦ through e
        | none ↦ elim (w.fields (w.underlying typ)) [
          | some fields ↦ get_elem? fields idx
          | none ↦ do _ ← w.methods typ; e ← w.pointer (w.underlying typ); through e
        ]
      ]

  has_method : Name → List Name → Bool
  has_method n [] = false
  has_method n (m ∷ ms) = names_equal n m || has_method n ms

  -- A method that a type shares with an interface.
  implementing_method : List Name → ℕ → Selection → Graph → Option Graph
  unfolding has_method get_field
  implementing_method names typ sel g = do
    o ← w.object sel.obj
    if not (has_method o.name names) then some g else (do
      let g' = mark_used_by w o.receiver_type typ g
      g'' ← elim sel.index [
        | [] ↦ some g'
        | i ∷ rest ↦ elim rest [
          | [] ↦ some g'
          | _ ∷ _ ↦ do f ← get_field w.depth typ i; some (mark_used_by w f typ g')
        ]
      ]
      some (mark_used_by w sel.obj typ g''))

  -- The inner loop of `fn` in `processTypes`, over the named types.
  implementing_type : ℕ → ℕ → Graph → Option Graph
  unfolding implementing_method
  implementing_type iface typ g = do
    names ← w.interface_methods iface
    if not (w.implements typ iface) && not (w.implements (w.pointer_to typ) iface)
        then some g
        else (do
          g' ← each (implementing_method names typ) (w.method_set typ) g
          each (implementing_method names (w.pointer_to typ)) (w.method_set (w.pointer_to typ)) g')

  unfoldable pub implement : List ℕ → ℕ → Graph → Option Graph
  unfolding implementing_type
  implement named iface g = each (implementing_type iface) named g

  -- The `switch` of `processTypes`.
  unfoldable pub process_type : Checker → ℕ → ℕ → Graph → Option Graph
  process_type c pkg typ g = do
    let g1 : Graph = elim (w.elem typ) [ none ↦ g | some e ↦ mark_used_by w e typ g ]
    let under = w.underlying typ
    elim (w.methods typ) [
      | some _ ↦ some (mark_used_by w under typ (mark_used_by w typ under g1))
      | none ↦ elim (w.fields typ) [
        | none ↦ some g1
        | some _ ↦ do
          g2 ← use_no_copy_fields typ g1
          if not (names_equal (w.package_name pkg) (bytes "main")) && not c.whole_program
              then use_exported_fields typ g2
              else some g2
      ]
    ]

  abbrev named_types : List ℕ → List ℕ
  named_types [] = []
  named_types (t ∷ ts) = elim (w.methods t) [ none ↦ named_types ts | some _ ↦ t ∷ named_types ts ]

  -- The interfaces that have methods, of `processTypes` and of `findExportedInterfaces`.
  abbrev pub interface_types : List ℕ → List ℕ
  interface_types [] = []
  interface_types (t ∷ ts) = elim (w.interface_methods t) [
    | none ↦ interface_types ts
    | some names ↦ elim names [ [] ↦ interface_types ts | _ ∷ _ ↦ t ∷ interface_types ts ]
  ]

  -- `interfaces` are those of the checker.
  unfoldable pub process_types : Checker → List ℕ → ℕ → List ℕ → Graph → Option Graph
  unfolding process_type implement
  process_types c interfaces pkg types g = do
    g1 ← each (process_type c pkg) types g
    g2 ← each (implement (named_types types)) (interface_types types) g1
    each (implement (named_types types)) interfaces g2
