-- ===== src/Unused/World.antt =====
-- What unused/unused.go reads of packages go/types, go/ast and go/loader. An object, a type, a scope, a
-- package and an expression is a number, its identity.
use go_tools.Common.{ℕ, Bool, Option, List, Name}

-- The dynamic type of an object.
pub data Class : Type 0 where
  var const func type_name pkg_name other_class : Class

-- `has_receiver`, `param_count` and `results` are those of the signature of a function, `scope` is its
-- scope; `parent` is the scope that an object is declared in, if it is in one.
pub record Object : Type 0 where
  pub class : Class
  pub name : Name
  pub exported : Bool
  pub is_field : Bool
  pub anonymous : Bool
  pub type : ℕ
  pub pkg : ℕ
  pub parent : Option ℕ
  pub has_receiver : Bool
  pub receiver_type : ℕ
  pub param_count : ℕ
  pub results : List ℕ
  pub scope : Option ℕ
  pub filename : Name
  pub innermost : ℕ

-- `*types.Selection`: the object, and the way to it through embedded fields.
pub record Selection : Type 0 where
  pub obj : ℕ
  pub index : List ℕ

-- Each field answers `none` for what is not of the type that it is about. `pointer` is the element of
-- a pointer, `elem` that of any type with a method `Elem`; `depth` bounds the pointers to pointers and
-- the scopes inside of scopes; the identities are below `size`.
pub record World : Type 0 where
  pub object : ℕ → Option Object
  pub pointer : ℕ → Option ℕ
  pub elem : ℕ → Option ℕ
  pub fields : ℕ → Option (List ℕ)
  pub methods : ℕ → Option (List ℕ)
  pub interface_methods : ℕ → Option (List Name)
  pub underlying : ℕ → ℕ
  pub intuitive_methods : ℕ → List ℕ
  pub method_set : ℕ → List Selection
  pub implements : ℕ → ℕ → Bool
  pub pointer_to : ℕ → ℕ
  pub scope_parent : ℕ → Option ℕ
  pub scope_objects : ℕ → List ℕ
  pub scope_children : ℕ → List ℕ
  pub is_scope : ℕ → Bool
  pub universe : ℕ
  pub package_scope : ℕ → ℕ
  pub package_name : ℕ → Name
  pub depth : ℕ
  pub size : ℕ
