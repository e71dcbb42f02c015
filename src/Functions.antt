-- ===== src/Functions.antt =====
-- What package functions finds out about a function in SSA form: functions/terminates.go, pure.go,
-- concrete.go, loops.go and `IsNilError` of functions.go.
pub mod Loops
mod Examples
use go_tools.Common.{
  ℕ, zero, suc, ◌+◌, Bool, true, false, not, ◌&&◌, ◌||◌, Option, none, some, List, [], ◌∷◌, ◌++◌,
  if◌then◌else◌, ◌==◌, ◌>>=◌, get_elem?, length, Name, names_equal,
}
use go_tools.Common.Search.{member}

-- What the package reads of values, calls and instructions of package ssa. A type, a function and a
-- block are numbers, their identities; the number of a block is its index.
pub data Value : Type 0 where
  const : Bool → Value
  make_interface : ℕ → Value
  other_value : Value

-- `StaticCallee()` of a call, or the builtin that it calls; `dynamic` is neither.
pub data Callee : Type 0 where
  builtin : Name → Callee
  static : ℕ → Callee
  dynamic : Callee

pub record CallCommon : Type 0 where
  pub is_invoke : Bool
  pub callee : Callee

pub data UnaryOp : Type 0 where
  mul and other_op : UnaryOp

pub data Instr : Type 0 where
  call defer : CallCommon → Instr
  select send go panic store field_addr debug_ref other_instr : Instr
  un_op : UnaryOp → Instr
  return : List Value → Instr

pub record Block : Type 0 where
  pub preds : List ℕ
  pub instrs : List Instr

-- A result of the signature: its type, whether that is written `error`, and whether it is an interface.
pub record Result : Type 0 where
  pub type : ℕ
  pub is_error : Bool
  pub is_interface : Bool

-- `blocks` is `none` for a function without a body; `params` says which of them are of a basic type.
pub record Function : Type 0 where
  pub self : ℕ
  pub params : List Bool
  pub results : List Result
  pub blocks : Option (List Block)

abbrev pub last {ℓ} : {A : Type ℓ} → List A → Option A
last [] = none
last (x ∷ []) = some x
last (x ∷ (y ∷ xs)) = last (y ∷ xs)

-- `block.Instrs[len(block.Instrs)-1].(*ssa.Return)`, for a block that has instructions
abbrev pub returned : Block → Option (List Value)
returned b = elim (last b.instrs) [
  | none ↦ none
  | some ins ↦ elim ins [ return vs ↦ some vs | _ ↦ none ]
]

any_return : List Block → Bool
any_return [] = false
any_return (b ∷ bs) = elim (returned b) [ none ↦ any_return bs | some vs ↦ true ]

unfoldable pub terminates : Function → Bool
unfolding any_return
terminates fn = elim fn.blocks [ none ↦ true | some bs ↦ any_return bs ]

-- `lintdsl.FilterDebug`
unfoldable pub filter_debug : List Instr → List Instr
filter_debug [] = []
filter_debug (debug_ref ∷ instrs) = filter_debug instrs
filter_debug (ins ∷ instrs) = ins ∷ filter_debug instrs

is_stub_body : List Instr → Bool
is_stub_body (return vs ∷ []) = true
is_stub_body (panic ∷ []) = true
is_stub_body _ = false

unfoldable pub is_stub : Function → Bool
unfolding filter_debug is_stub_body
is_stub fn = elim fn.blocks [
  | none ↦ true
  | some bs ↦ elim bs [
    | [] ↦ true
    | b ∷ rest ↦ elim rest [ [] ↦ is_stub_body (filter_debug b.instrs) | _ ∷ _ ↦ false ]
  ]
]

-- The names of the builtins that `IsPure` lets through.
abbrev pure_builtins : List Name
pure_builtins =
    (b'l' ∷ b'e' ∷ b'n' ∷ [])
    ∷ (b'c' ∷ b'a' ∷ b'p' ∷ [])
    ∷ (b'm' ∷ b'a' ∷ b'k' ∷ b'e' ∷ [])
    ∷ (b'n' ∷ b'e' ∷ b'w' ∷ [])
    ∷ []

any_name : Name → List Name → Bool
any_name n [] = false
any_name n (m ∷ ms) = names_equal n m || any_name n ms

-- `described_pure` is `d.Get(f).Pure`, and `calls_back` whether package callgraph finds a path from
-- the callee back to the function.
module _ (described_pure calls_back : ℕ → Bool) where
  unfoldable pub check_call : ℕ → CallCommon → Bool
  unfolding any_name
  check_call self common = if common.is_invoke then false else elim common.callee [
    | builtin name ↦ any_name name pure_builtins
    | dynamic ↦ false
    | static f ↦ if f == self then true else not (calls_back f) && described_pure f
  ]

  unfoldable pub pure_instr : ℕ → Instr → Bool
  unfolding check_call
  pure_instr self (call common) = check_call self common
  pure_instr self (defer common) = check_call self common
  pure_instr self select = false
  pure_instr self send = false
  pure_instr self go = false
  pure_instr self panic = false
  pure_instr self store = false
  pure_instr self field_addr = false
  pure_instr self (un_op mul) = false
  pure_instr self (un_op and) = false
  pure_instr self _ = true

  pure_instrs : ℕ → List Instr → Bool
  unfolding pure_instr
  pure_instrs self [] = true
  pure_instrs self (ins ∷ instrs) = pure_instr self ins && pure_instrs self instrs

  pure_blocks : ℕ → List Block → Bool
  unfolding pure_instrs
  pure_blocks self [] = true
  pure_blocks self (b ∷ bs) = pure_instrs self b.instrs && pure_blocks self bs

  all_basic : List Bool → Bool
  all_basic [] = true
  all_basic (p ∷ ps) = p && all_basic ps

  unfoldable pub is_pure : Function → Bool
  unfolding pure_blocks all_basic
  is_pure fn = elim fn.results [
    | [] ↦ false
    | _ ∷ _ ↦
        if not (all_basic fn.params)
        then false
        else elim fn.blocks [ none ↦ false | some bs ↦ pure_blocks fn.self bs ]
  ]

-- The loop of `IsNilError`; `none` is the panic of a return without results.
unfoldable pub nil_returns : List Block → Option Bool
nil_returns [] = some true
nil_returns (b ∷ bs) = elim (returned b) [
  | none ↦ nil_returns bs
  | some vs ↦ do
    v ← last vs
    elim v [ const is_nil ↦ if not is_nil then some false else nil_returns bs | _ ↦ some false ]
]

unfoldable pub is_nil_error : Function → Option Bool
unfolding nil_returns
is_nil_error fn = elim (last fn.results) [
  | none ↦ some false
  | some r ↦
      if not r.is_error
      then some false
      else elim fn.blocks [ none ↦ some false | some bs ↦ nil_returns bs ]
]

-- The type of one result of a return.
unfoldable pub concrete_type : Result → Value → ℕ
concrete_type r (make_interface t) = if not r.is_interface then r.type else t
concrete_type r v = r.type

-- The results of one return; `none` is an index out of range. A return has as many values as the
-- signature has results.
unfoldable pub concrete_types : List Result → List Value → Option (List ℕ)
unfolding concrete_type
concrete_types [] [] = some []
concrete_types (r ∷ rs) (v ∷ vs) = do ts ← concrete_types rs vs; some (concrete_type r v ∷ ts)
concrete_types _ _ = none

any_interface : List Result → Bool
any_interface [] = false
any_interface (r ∷ rs) = r.is_interface || any_interface rs

concrete_blocks : List Result → List Block → Option (List (List ℕ))
unfolding concrete_types
concrete_blocks rs [] = some []
concrete_blocks rs (b ∷ bs) = elim (returned b) [
  | none ↦ concrete_blocks rs bs
  | some vs ↦ do ts ← concrete_types rs vs; out ← concrete_blocks rs bs; some (ts ∷ out)
]

abbrev pub types_of : List Result → List ℕ
types_of [] = []
types_of (r ∷ rs) = r.type ∷ types_of rs

unfoldable pub concrete_return_types : Function → Option (List (List ℕ))
unfolding any_interface concrete_blocks
concrete_return_types fn = elim fn.results [
  | [] ↦ some []
  | _ ↦
      if not (any_interface fn.results)
      then some (types_of fn.results ∷ [])
      else elim fn.blocks [ none ↦ some [] | some bs ↦ concrete_blocks fn.results bs ]
]

-- `block.Preds`
abbrev pub preds_of : List Block → ℕ → List ℕ
preds_of bs n = elim (get_elem? bs n) [ none ↦ [] | some b ↦ b.preds ]

-- The loop of `allPredsBut` over predecessors. The fuel bounds the depth of the recursion; `none`
-- means that it ran out.
unfoldable pub preds_loop : List Block → ℕ → ℕ → List ℕ → List ℕ → Option (List ℕ)
preds_loop bs but fuel [] list = some list
preds_loop bs but zero (pred ∷ preds) list = elim (pred == but) [
  | true ↦ preds_loop bs but zero preds list
  | false ↦ none
]
preds_loop bs but (suc fuel) (pred ∷ preds) list = elim (pred == but) [
  | true ↦ preds_loop bs but (suc fuel) preds list
  | false ↦ do
    list' ← elim (member pred list) [
      | true ↦ some list
      | false ↦ preds_loop bs but fuel (preds_of bs pred) (list ++ pred ∷ [])
    ]
    preds_loop bs but (suc fuel) preds list'
]

unfoldable pub all_preds_but : List Block → ℕ → ℕ → List ℕ → Option (List ℕ)
unfolding preds_loop
all_preds_but bs b but list = preds_loop bs but (length bs + 1) (preds_of bs b) list

-- The tree of dominators is package ssa's: `tree` is `DomPreorder()`, and `dominates` the test.
module _ (dominates : ℕ → ℕ → Bool) (bs : List Block) where
  -- The loop of a back-edge from `n` to `h`.
  unfoldable pub loop_of : ℕ → ℕ → Option (List ℕ)
  unfolding all_preds_but
  loop_of h n =
      if n == h then some (n ∷ []) else (do set ← all_preds_but bs n h []; some (h ∷ n ∷ set))

  unfoldable pub loops_to : ℕ → List ℕ → Option (List (List ℕ))
  unfolding loop_of
  loops_to h [] = some []
  loops_to h (n ∷ preds) =
      if not (dominates h n)
      then loops_to h preds
      else (do set ← loop_of h n; sets ← loops_to h preds; some (set ∷ sets))

  unfoldable pub loops_from : List ℕ → Option (List (List ℕ))
  unfolding loops_to
  loops_from [] = some []
  loops_from (h ∷ tree) = do
    sets ← loops_to h (preds_of bs h)
    rest ← loops_from tree
    some (sets ++ rest)

unfoldable pub find_loops : (ℕ → ℕ → Bool) → List ℕ → Function → Option (List (List ℕ))
unfolding loops_from
find_loops dominates tree fn = elim fn.blocks [
  | none ↦ some []
  | some bs ↦ loops_from dominates bs tree
]
