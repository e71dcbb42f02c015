-- ===== src/Unused/Roots.antt =====
-- Which objects of unused/unused.go are roots, which the mode leaves out, and the outermost scope inside
-- of a package.
use go_tools.Common.{
  ℕ, zero, suc, Bool, true, false, not, ◌&&◌, ◌||◌, Option, none, some, if◌then◌else◌, ◌==◌, ◌>>=◌,
  names_equal, has_prefix, has_suffix, bytes,
}
use go_tools.Unused.World.{World, Object, var, const, func, type_name, pkg_name}

-- The bits of `CheckMode`, and the options of `Checker`.
pub record Checker : Type 0 where
  pub constants : Bool
  pub fields : Bool
  pub functions : Bool
  pub types : Bool
  pub variables : Bool
  pub whole_program : Bool
  pub consider_reflection : Bool

abbrev pub is_function : Object → Bool
is_function o = elim o.class [ func ↦ true | _ ↦ false ]

abbrev is_method : Object → Bool
is_method o = is_function o && o.has_receiver

abbrev pub is_variable : Object → Bool
is_variable o = elim o.class [ var ↦ true | _ ↦ false ]

abbrev is_constant : Object → Bool
is_constant o = elim o.class [ const ↦ true | _ ↦ false ]

abbrev pub is_type : Object → Bool
is_type o = elim o.class [ type_name ↦ true | _ ↦ false ]

abbrev pub is_pkg_name : Object → Bool
is_pkg_name o = elim o.class [ pkg_name ↦ true | _ ↦ false ]

abbrev is_field_object : Object → Bool
is_field_object o = is_variable o && o.is_field

abbrev pub is_scope_of : Option ℕ → ℕ → Bool
is_scope_of none s = false
is_scope_of (some p) s = p == s

module _ (w : World) where
  -- `obj.Parent() == obj.Pkg().Scope()`
  abbrev pub is_pkg_scope : Object → Bool
  is_pkg_scope o = is_scope_of o.parent (w.package_scope o.pkg)

  is_main : Object → Bool
  is_main o =
      if not (names_equal (w.package_name o.pkg) (bytes "main"))
      then false
      else if not (names_equal o.name (bytes "main"))
      then false
      else if not (is_pkg_scope o)
      then false
      else if not (is_function o)
      then false
      else if is_method o
      then false
      else true

  unfoldable pub is_root : Checker → Object → Bool
  unfolding is_main
  is_root c o =
      if is_pkg_name o
      then true
      else if is_main o || (is_function o && not (is_method o) && names_equal o.name (bytes "init"))
      then true
      else if o.exported
      then (if has_suffix o.filename (bytes "_test.go")
          then has_prefix o.name (bytes "Test")
            || has_prefix o.name (bytes "Benchmark")
            || has_prefix o.name (bytes "Example")
          else if is_pkg_scope o
              && not (names_equal (w.package_name o.pkg) (bytes "main"))
              && not c.whole_program
          then true
          else false)
      else false

  -- `topmostScope`, without its cache; `none` is a scope that has no parent, or the depth run out.
  topmost_from : ℕ → ℕ → ℕ → Option ℕ
  topmost_from zero scope pkg = none
  topmost_from (suc fuel) scope pkg =
      let rest = λ (p : ℕ). topmost_from fuel p pkg in
      if scope == w.package_scope pkg then some scope else (do
        p ← w.scope_parent scope
        if is_scope_of (w.scope_parent p) (w.package_scope pkg) then some scope else rest p)

  unfoldable pub topmost_scope : ℕ → ℕ → Option ℕ
  unfolding topmost_from
  topmost_scope scope pkg = topmost_from w.depth scope pkg

-- The tests of `checkFlags` on an object.
unfoldable pub check_flags : Checker → Object → Bool
check_flags c o =
    if is_function o && not c.functions
    then false
    else if is_variable o && not c.variables
    then false
    else if is_constant o && not c.constants
    then false
    else if is_type o && not c.types
    then false
    else if is_field_object o && not c.fields
    then false
    else true
