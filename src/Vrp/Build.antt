-- ===== src/Vrp/Build.antt =====
-- `BuildGraph` of staticcheck/vrp/vrp.go up to the graph: the constraints of the constants and of the
-- instructions of a function.
pub mod Call
pub mod Definitions
pub mod Results
use go_tools.Common.{
  ℕ, zero, suc, Bool, true, false, not, ◌&&◌, ◌||◌, Option, none, some, List, [], ◌∷◌, ◌++◌,
  if◌then◌else◌, ◌==◌, ◌>>=◌, ℤ, pos, Name, names_equal, bytes, length,
}
use go_tools.Common.Search.{member}
use go_tools.Vrp.Z.{finite}
use go_tools.Vrp.Interval.{new_int_interval}
use go_tools.Vrp.Token.{Token, lss, gtr, eql, neq, geq, leq, add, sub, mul, other}
use go_tools.Vrp.Constraint.{
  Constraint, phi, int_add, int_sub, int_mul, int_conversion, int_interval, string_interval,
  slice_interval, string_slice, slice_slice, array_slice, string_concat, slice_append,
  string_length, slice_length, make_slice, make_channel, channel_change_type,
}
use go_tools.Vrp.Range.{
  BasicKind, listed_int, text, other_kind, GoType, basic, chan_type, slice_type, other_pointer,
  other_type, array_type, pointer_to_array, Value, Types,
}
use go_tools.Vrp.Sigma.{Sigma, BinOp, Values, sigma_integer, sigma_string, sigma_slice}
use go_tools.Vrp.Build.Call.{call_constraints}

-- `ssa.Const` by its value: nil, an integer, a string, or of another kind.
pub data Const : Type 0 where
  nil_const other_const : Const
  int_const : ℤ → Const
  string_const : Name → Const

-- The instructions that `BuildGraph` tells apart, with what it reads of them. A call has the full name
-- of its static callee, if that is a function of package go/types, the name of the builtin that it
-- calls, if it does, and its arguments. A sigma has the condition of the branch that it stands behind,
-- if that is a binary operation.
pub data Instr : Type 0 where
  convert : Value → Instr
  call : Option Name → Option Name → List Value → Instr
  bin_op : Token → Value → Value → Instr
  slice : Value → Option Value → Option Value → Instr
  phi_node : List Value → Instr
  sigma : Value → Bool → Option BinOp → Instr
  make_chan make_slice_of change_type : Value → Instr
  other_instr : Instr

-- An instruction with the value that it defines and its operands.
pub record Instruction : Type 0 where
  pub value : Value
  pub operands : List Value
  pub instr : Instr

module _ (ts : Types) where
  unfoldable pub constant_constraints : Value → Const → Option (List Constraint)
  constant_constraints c nil_const = elim (ts.type_of c) [
    | slice_type ↦ do
      i ← new_int_interval (finite (pos 0)) (finite (pos 0))
      some (slice_interval i c ∷ [])
    | _ ↦ some []
  ]
  constant_constraints c (int_const v) = do
    i ← new_int_interval (finite v) (finite v)
    some (int_interval i c ∷ [])
  constant_constraints c (string_const s) = do
    let n = finite (pos (length s))
    i ← new_int_interval n n
    some (string_interval i c ∷ [])
  constant_constraints c other_const = some []

module _ (ts : Types) (constant_of : Value → Option Const) where
  -- The first loop over the operands; `seen` holds the constants that it has met.
  unfoldable pub constants : List Value → List Value → Option (List Constraint)
  unfolding constant_constraints
  constants seen [] = some []
  constants seen (op ∷ ops) = elim (constant_of op) [
    | none ↦ constants seen ops
    | some c ↦ elim (member op seen) [
      | true ↦ constants seen ops
      | false ↦ do
        cs ← constant_constraints ts op c
        rest ← constants (op ∷ seen) ops
        some (cs ++ rest)
    ]
  ]

abbrev pub all_operands : List Instruction → List Value
all_operands [] = []
all_operands (ins ∷ block) = ins.operands ++ all_operands block

-- The values of `uniqm` in `NewPhiConstraint`, each once.
unfoldable pub unique : List Value → List Value
unique [] = []
unique (v ∷ vs) = if member v vs then unique vs else v ∷ unique vs

unfoldable pub is_supported_type : GoType → Bool
is_supported_type (basic t) = elim t.kind [ text ↦ true | _ ↦ t.is_integer ]
is_supported_type chan_type = true
is_supported_type slice_type = true
is_supported_type _ = false

abbrev pub one {ℓ} : {A : Type ℓ} → Option A → List A
one none = []
one (some a) = a ∷ []

module _ (ts : Types) where
  unfoldable pub bin_op_constraints : Value → Token → Value → Value → List Constraint
  bin_op_constraints y op a b = elim (ts.type_of a) [
    | basic t ↦ elim t.kind [
      | listed_int ↦ elim op [
        | add ↦ int_add a b y ∷ []
        | sub ↦ int_sub a b y ∷ []
        | mul ↦ int_mul a b y ∷ []
        | _ ↦ []
      ]
      | text ↦ elim op [ add ↦ string_concat a b y ∷ [] | _ ↦ [] ]
      | other_kind ↦ []
    ]
    | _ ↦ []
  ]

  unfoldable pub slice_constraints : Value → Value → Option Value → Option Value → List Constraint
  slice_constraints y x low high = elim (ts.type_of x) [
    | basic t ↦ string_slice x low high y ∷ []
    | slice_type ↦ slice_slice x low high y ∷ []
    | array_type n ↦ array_slice x low high y ∷ []
    | pointer_to_array n ↦ array_slice x low high y ∷ []
    | _ ↦ []
  ]

module _ (ts : Types) (vs : Values) where
  -- The `switch` on the type of a sigma.
  unfoldable pub sigma_constraints : Sigma → BinOp → Option (List Constraint)
  sigma_constraints ins cond = elim (ts.type_of ins.y) [
    | basic t ↦ elim t.kind [
      | listed_int ↦ do c ← sigma_integer ins cond; some (one c)
      | text ↦ do c ← sigma_string ts vs ins cond; some (one c)
      | other_kind ↦ some []
    ]
    | slice_type ↦ do c ← sigma_slice vs ins cond; some (one c)
    | _ ↦ some []
  ]

  -- The `switch` of the second loop.
  unfoldable pub instr_constraints : Value → Instr → Option (List Constraint)
  unfolding bin_op_constraints slice_constraints sigma_constraints unique is_supported_type
  instr_constraints y (convert x) = elim (ts.type_of y) [
    | basic t ↦ some (if not t.is_integer then [] else int_conversion x y ∷ [])
    | _ ↦ some []
  ]
  instr_constraints y (call callee builtin args) = call_constraints ts y callee builtin args
  instr_constraints y (bin_op op a b) = some (bin_op_constraints ts y op a b)
  instr_constraints y (slice x low high) = some (slice_constraints ts y x low high)
  instr_constraints y (phi_node ops) =
      some (if not (is_supported_type (ts.type_of y)) then [] else phi (unique ops) y ∷ [])
  instr_constraints y (sigma x branch cond) = do
    b ← cond
    sigma_constraints (record { x = x; branch = branch; y = y }) b
  instr_constraints y (make_chan size) = some (make_channel size y ∷ [])
  instr_constraints y (make_slice_of len) = some (make_slice len y ∷ [])
  instr_constraints y (change_type x) = elim (ts.type_of x) [
    | chan_type ↦ some (channel_change_type x y ∷ [])
    | _ ↦ some []
  ]
  instr_constraints y other_instr = some []

  -- The second loop, over the instructions of all blocks.
  unfoldable pub instructions : List Instruction → Option (List Constraint)
  unfolding instr_constraints
  instructions [] = some []
  instructions (ins ∷ block) = do
    cs ← instr_constraints ins.value ins.instr
    rest ← instructions block
    some (cs ++ rest)

  -- Both loops.
  unfoldable pub constraints : (Value → Option Const) → List Instruction → Option (List Constraint)
  unfolding constants instructions
  constraints constant_of block = do
    cs ← constants ts constant_of [] (all_operands block)
    rest ← instructions block
    some (cs ++ rest)
