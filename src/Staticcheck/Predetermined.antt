-- ===== src/Staticcheck/Predetermined.antt =====
-- `CheckPredeterminedBooleanExprs` of staticcheck/lint.go.
pub mod Counting
pub mod Exact
use go_tools.Common.{
  ◌≡◌, Option, none, some, Bool, true, false, not, ◌||◌, List, [], ◌∷◌, ℕ, zero, suc, ◌*◌, ◌==◌,
  length, if◌then◌else◌, ◌>>=◌,
}
use go_tools.Vrp.Token.{Token, lss, gtr, eql, neq, geq, leq}
use go_tools.Staticcheck.Constants.{Kind, consts}

abbrev pub is_comparison : Token → Bool
is_comparison gtr = true
is_comparison lss = true
is_comparison eql = true
is_comparison neq = true
is_comparison leq = true
is_comparison geq = true
is_comparison _ = false

abbrev pub is_empty {ℓ} : {A : Type ℓ} → List A → Bool
is_empty [] = true
is_empty (x ∷ xs) = false

-- The `compare` is constant.Compare, whose second value may be nil, and which may panic.
module _ {V : Type 0} (compare : V → Token → Option V → Option Bool) where
  -- Whether a pair of constants is counted.
  abbrev pub is_true : Token → Option V → Option V → Option Bool
  is_true op none none = some true
  is_true op none (some y) = some false
  is_true op (some x) y = compare x op y

  -- The inner loop.
  unfoldable pub count_row : Token → Option V → List (Option V) → ℕ → Option ℕ
  count_row op x [] trues = some trues
  count_row op x (y ∷ ys) trues = do
    t ← is_true op x y
    count_row op x ys (if t then suc trues else trues)

  unfoldable pub count_trues : Token → List (Option V) → List (Option V) → ℕ → Option ℕ
  unfolding count_row
  count_trues op [] ys trues = some trues
  count_trues op (x ∷ xs) ys trues = do
    trues' ← count_row op x ys trues
    count_trues op xs ys trues'

  -- The report for two lists of constants, by the `b` of its message.
  unfoldable pub verdict :
      Token
      → Option (List (Option V) × List ℕ)
      → Option (List (Option V) × List ℕ)
      → Option (Option Bool)
  unfolding count_trues
  verdict op (some (xs, _)) (some (ys, _)) = if is_empty xs || is_empty ys then some none else do
    trues ← count_trues op xs ys 0
    if (trues == 0) || (trues == length xs * length ys)
        then some (some (not (trues == 0)))
        else some none
  verdict op _ _ = some none

  -- The report for a binary operation; the outer `none` is a panic, or that the fuel ran out.
  unfoldable pub check_predetermined :
      (Option V → Option V → Bool) → (ℕ → Kind V) → ℕ → Token → ℕ → ℕ → Option (Option Bool)
  unfolding verdict
  check_predetermined same kind fuel op x y =
      if is_comparison op
      then (do
        xs ← consts same kind fuel x [] []
        ys ← consts same kind fuel y [] []
        verdict op xs ys)
      else some none
