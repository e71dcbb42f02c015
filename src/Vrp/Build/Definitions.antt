-- ===== src/Vrp/Build/Definitions.antt =====
-- `BuildGraph` of staticcheck/vrp/vrp.go: the constraints of a function against its definitions.
use go_tools.Common.{
  ℕ, ◌+◌, ◌≤◌, ◌≡◌, Option, none, some, List, [], ◌∷◌, if◌then◌else◌, ==_iff, Bool-cases, arith,
  All, Option-cases, inl, inr,
}
use go_tools.Common.Search.{member}
use go_tools.Vrp.Constraint.{Constraint}
use go_tools.Vrp.Range.{Value, Types}
use go_tools.Vrp.Sigma.{Values}
use go_tools.Vrp.Build.{
  Const, Instruction, constant_constraints, constants, all_operands, instr_constraints,
  instructions, constraints,
}
use go_tools.Vrp.Build.Results.{number, number-append, at, constant_results, IsCall, instr_results}

-- How many of the instructions define `z`.
abbrev pub defined : Value → List Instruction → ℕ
defined z [] = 0
defined z (ins ∷ block) = at ins.value z + defined z block

-- One for a constant, none for another value.
abbrev pub constant : (Value → Option Const) → Value → ℕ
constant constant_of z = elim (constant_of z) [ none ↦ 0 | some c ↦ 1 ]

module _ (ts : Types) (vs : Values) (constant_of : Value → Option Const) (z : Value) where
  -- A constant that has been met is given no constraint again.
  constants_results :
      (seen ops : List Value) (cs : List Constraint)
      → constants ts constant_of seen ops ≡ some cs
      → number z cs ≤ (if member z seen then 0 else constant constant_of z)
  unfolding constants
  constants_results seen [] cs h = ground arith
  constants_results seen (op ∷ ops) cs h = elim (Option-cases (constant_of op)) [
    | inl n ↦ ground (arith, constants_results seen ops cs)
    | inr (c, e) ↦ elim (Bool-cases (member op seen)) [
      | inl old ↦ ground (arith, constants_results seen ops cs)
      | inr new ↦ elim (Option-cases (constant_constraints ts op c)) [
        | inl n ↦ ground arith
        | inr (ds, d) ↦ elim (Option-cases (constants ts constant_of (op ∷ seen) ops)) [
          | inl n ↦ ground arith
          | inr (rest, r) ↦ ground (
            arith,
            constants_results (op ∷ seen) ops rest r,
            constant_results ts z op c ds d,
            number-append z ds rest,
            ==_iff op z,
            ==_iff z op,
          )
        ]
      ]
    ]
  ]

  instructions_results :
      (block : List Instruction) (cs : List Constraint)
      → All (λ ins. IsCall ins.instr) block
      → instructions ts vs block ≡ some cs
      → number z cs ≤ defined z block
  unfolding instructions
  instructions_results [] cs a h = ground arith
  instructions_results (ins ∷ block) cs (i, a) h =
      elim (Option-cases (instr_constraints ts vs ins.value ins.instr)) [
        | inl n ↦ ground arith
        | inr (ds, d) ↦ elim (Option-cases (instructions ts vs block)) [
          | inl n ↦ ground arith
          | inr (rest, r) ↦ ground (
            arith,
            instr_results ts vs z ins.value ins.instr ds i d,
            instructions_results block rest a r,
            number-append z ds rest,
          )
        ]
      ]

  -- In a function whose calls have a static callee or a builtin, not both, `BuildGraph` gives a value
  -- at most as many constraints as the value has definitions: one for each instruction that defines
  -- it, and one if it is a constant, however often it is an operand.
  pub constraints-number :
      (block : List Instruction) (cs : List Constraint)
      → All (λ ins. IsCall ins.instr) block
      → constraints ts vs constant_of block ≡ some cs
      → number z cs ≤ constant constant_of z + defined z block
  unfolding constraints
  constraints-number block cs a h =
      elim (Option-cases (constants ts constant_of [] (all_operands block))) [
        | inl n ↦ ground arith
        | inr (ds, d) ↦ elim (Option-cases (instructions ts vs block)) [
          | inl n ↦ ground arith
          | inr (rest, r) ↦ ground (
            arith,
            constants_results [] (all_operands block) ds d,
            instructions_results block rest a r,
            number-append z ds rest,
          )
        ]
      ]
