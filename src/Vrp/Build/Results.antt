-- ===== src/Vrp/Build/Results.antt =====
-- `BuildGraph` of staticcheck/vrp/vrp.go: the results of the constraints of one instruction.
use go_tools.Common.{
  ℕ, ◌+◌, ◌≤◌, ◌≡◌, refl, inl, inr, Option, none, some, List, [], ◌∷◌, ◌++◌, if◌then◌else◌, ◌==◌,
  ◌>>=◌, arith, Name, Option-cases,
}
use go_tools.Vrp.Token.{Token}
use go_tools.Vrp.Constraint.{Constraint, result}
use go_tools.Vrp.Range.{Value, Types}
use go_tools.Vrp.Sigma.{Sigma, BinOp, Values, sigma_integer, sigma_string, sigma_slice}
use go_tools.Vrp.Build.{
  Const, nil_const, int_const, string_const, other_const, Instr, convert, call, bin_op, slice,
  phi_node, sigma, make_chan, make_slice_of, change_type, other_instr, constant_constraints, one,
  bin_op_constraints, slice_constraints, sigma_constraints, instr_constraints,
}
use go_tools.Vrp.Build.Call.{callee_constraints, builtin_constraints, call_constraints}

-- How many of the constraints have the result `y`.
abbrev pub number : Value → List Constraint → ℕ
number y [] = 0
number y (c ∷ cs) = (if result c == y then 1 else 0) + number y cs

pub number-append :
    (y : Value) (cs ds : List Constraint) → number y (cs ++ ds) ≡ number y cs + number y ds
number-append y [] ds = omega arith
number-append y (c ∷ cs) ds = omega (arith, number-append y cs ds)

-- One for the value itself, none for others.
abbrev pub at : Value → Value → ℕ
at y z = if y == z then 1 else 0

-- A call has a static function or a builtin, not both.
abbrev pub IsCall : Instr → Type 0
IsCall (call (some f) (some b) args) = ⊥
IsCall _ = Unit

module _ (ts : Types) (z : Value) where
  bin_op_results :
      (y : Value) (op : Token) (a b : Value) → number z (bin_op_constraints ts y op a b) ≤ at y z
  unfolding bin_op_constraints result
  bin_op_results y op a b = ground arith

  slice_results :
      (y x : Value) (low high : Option Value)
      → number z (slice_constraints ts y x low high) ≤ at y z
  unfolding slice_constraints result
  slice_results y x low high = ground arith

  callee_results :
      (y : Value) (name : Name) (args : List Value) (cs : List Constraint)
      → callee_constraints y name args ≡ some cs
      → number z cs ≤ at y z
  unfolding callee_constraints result
  callee_results y name args cs h = ground arith

  builtin_results :
      (y : Value) (name : Name) (args : List Value) (cs : List Constraint)
      → builtin_constraints ts y name args ≡ some cs
      → number z cs ≤ at y z
  unfolding builtin_constraints result
  builtin_results y name args cs h = ground arith

  pub constant_results :
      (y : Value) (c : Const) (cs : List Constraint)
      → constant_constraints ts y c ≡ some cs
      → number z cs ≤ at y z
  unfolding constant_constraints result
  constant_results y nil_const cs h = ground arith
  constant_results y (int_const v) cs h = ground arith
  constant_results y (string_const s) cs h = ground arith
  constant_results y other_const cs h = ground arith

module _ (ts : Types) (vs : Values) (z : Value) where
  integer_results :
      (ins : Sigma) (cond : BinOp) (c : Constraint)
      → sigma_integer ins cond ≡ some (some c)
      → result c ≡ ins.y
  unfolding sigma_integer result
  integer_results ins cond c h = ground arith

  string_results :
      (ins : Sigma) (cond : BinOp) (c : Constraint)
      → sigma_string ts vs ins cond ≡ some (some c)
      → result c ≡ ins.y
  unfolding sigma_string result
  string_results ins cond c h = ground arith

  slice_sigma_results :
      (ins : Sigma) (cond : BinOp) (c : Constraint)
      → sigma_slice vs ins cond ≡ some (some c)
      → result c ≡ ins.y
  unfolding sigma_slice result
  slice_sigma_results ins cond c h = ground arith

  one_results :
      (y : Value) (m : Option (Option Constraint)) (cs : List Constraint)
      → ((c : Constraint) → m ≡ some (some c) → result c ≡ y)
      → (do c ← m; some (one c)) ≡ some cs
      → number z cs ≤ at y z
  unfolding result
  one_results y none cs f h = cc
  one_results y (some none) cs f h = ground arith
  one_results y (some (some c)) cs f h = ground (arith, f c refl)

  sigma_results :
      (ins : Sigma) (cond : BinOp) (cs : List Constraint)
      → sigma_constraints ts vs ins cond ≡ some cs
      → number z cs ≤ at ins.y z
  unfolding sigma_constraints
  sigma_results ins cond cs h = ground (
    arith,
    one_results ins.y (sigma_integer ins cond) cs (integer_results ins cond),
    one_results ins.y (sigma_string ts vs ins cond) cs (string_results ins cond),
    one_results ins.y (sigma_slice vs ins cond) cs (slice_sigma_results ins cond),
  )

  call_results :
      (y : Value) (callee builtin : Option Name) (args : List Value) (cs : List Constraint)
      → IsCall (call callee builtin args)
      → call_constraints ts y callee builtin args ≡ some cs
      → number z cs ≤ at y z
  unfolding call_constraints
  call_results y none none args cs i h = ground arith
  call_results y (some f) none args cs i h = elim (Option-cases (callee_constraints y f args)) [
    | inl n ↦ ground arith
    | inr (ds, e) ↦ ground (arith, callee_results ts z y f args ds e, number-append z ds [])
  ]
  call_results y none (some b) args cs i h = ground (arith, builtin_results ts z y b args cs)
  call_results y (some f) (some b) args cs i h = absurd i

  pub instr_results :
      (y : Value) (i : Instr) (cs : List Constraint)
      → IsCall i
      → instr_constraints ts vs y i ≡ some cs
      → number z cs ≤ at y z
  unfolding instr_constraints result
  instr_results y (convert x) cs i h = ground arith
  instr_results y (call callee builtin args) cs i h = call_results y callee builtin args cs i h
  instr_results y (bin_op op a b) cs i h = ground (arith, bin_op_results ts z y op a b)
  instr_results y (slice x low high) cs i h = ground (arith, slice_results ts z y x low high)
  instr_results y (phi_node ops) cs i h = ground arith
  instr_results y (sigma x branch none) cs i h = cc
  instr_results y (sigma x branch (some b)) cs i h =
      sigma_results (record { x = x; branch = branch; y = y }) b cs h
  instr_results y (make_chan size) cs i h = ground arith
  instr_results y (make_slice_of len) cs i h = ground arith
  instr_results y (change_type x) cs i h = ground arith
  instr_results y other_instr cs i h = ground arith
