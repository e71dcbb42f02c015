-- ===== src/Staticcheck/Constants.antt =====
-- `consts` of staticcheck/lint.go: the constants that a value may be.
pub mod Uniq
pub mod Covered
pub mod Calls
pub mod Exact
use go_tools.Common.{
  ◌≡◌, Option, none, some, Bool, true, false, List, [], ◌∷◌, ◌++◌, ℕ, zero, suc, if◌then◌else◌,
  ◌>>=◌,
}
use go_tools.Common.Search.{member, Leads}

-- What `consts` reads of a value: the operands of a phi, the `Value` of a constant, whose `nil` is
-- `none`, and the operand of a conversion. A value is a number; it stands for the name of a phi too.
pub data Kind (V : Type 0) : Type 0 where
  phi : List ℕ → Kind V
  const : Option V → Kind V
  convert : ℕ → Kind V
  other : Kind V

-- What a call returns, with the phis that it has visited; the inner `none` is the answer that is not ok,
-- the outer one that the fuel ran out.
abbrev pub Answer : Type 0 → Type 0
Answer V = Option (Option (List (Option V) × List ℕ))

-- The `same` is Go's `==` on two values of type constant.Value.
module _ {V : Type 0} (same : Option V → Option V → Bool) where
  -- The constants behind `last`, the last of `uniq`.
  unfoldable pub uniq_from : Option V → List (Option V) → List (Option V)
  uniq_from last [] = []
  uniq_from last (x ∷ out) = elim (same x last) [
    | true ↦ uniq_from last out
    | false ↦ x ∷ uniq_from x out
  ]

  unfoldable pub uniq : List (Option V) → List (Option V)
  unfolding uniq_from
  uniq [] = []
  uniq (x ∷ out) = x ∷ uniq_from x out

  -- The end of a call whose switch has not returned.
  unfoldable pub answered : Option (List (Option V) × List ℕ) → Option (List (Option V) × List ℕ)
  unfolding uniq
  answered none = none
  answered (some (out, visited)) = some (uniq out, visited)

  -- The loop over the operands of a phi.
  unfoldable pub each_operand :
      (ℕ → List (Option V) → List ℕ → Answer V) → List ℕ → List (Option V) → List ℕ → Answer V
  each_operand call [] out visited = some (some (out, visited))
  each_operand call (v ∷ vals) out visited = do
    answer ← call v out visited
    elim answer [ none ↦ some none | some (out', visited') ↦ each_operand call vals out' visited' ]

  unfoldable pub switch :
      (ℕ → List (Option V) → List ℕ → Answer V) → Kind V → ℕ → List (Option V) → List ℕ → Answer V
  unfolding each_operand answered
  switch call (phi vals) v out visited =
      if member v visited
      then some (answered (some (out, visited)))
      else do answer ← each_operand call vals out (visited ++ v ∷ []); some (answered answer)
  switch call (const c) v out visited = some (answered (some (out ++ c ∷ [], visited)))
  switch call (convert x) v out visited = do answer ← call x out visited; some (answered answer)
  switch call other v out visited = some none

  -- The fuel bounds the depth of the calls.
  unfoldable pub consts : (ℕ → Kind V) → ℕ → ℕ → List (Option V) → List ℕ → Answer V
  unfolding switch
  consts kind zero v out visited = none
  consts kind (suc fuel) v out visited = switch (consts kind fuel) (kind v) v out visited

-- What a value may be, by its kind.
abbrev pub sources : {V : Type 0} → Kind V → List ℕ
sources (phi vals) = vals
sources (const c) = []
sources (convert x) = x ∷ []
sources other = []

module _ {V : Type 0} (kind : ℕ → Kind V) where
  -- The constant comes to the value over phis and conversions.
  abbrev pub Flows : Option V → ℕ → Type 0
  Flows c v = (y : ℕ) × Leads (λ x. sources (kind x)) v y × (kind y ≡ const c)

  -- So does a value that is neither.
  abbrev pub Escapes : ℕ → Type 0
  Escapes v = (y : ℕ) × Leads (λ x. sources (kind x)) v y × (kind y ≡ other)
