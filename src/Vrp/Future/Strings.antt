-- ===== src/Vrp/Future/Strings.antt =====
-- `StringIntersectionConstraint.Resolve` of a comparison of two strings (staticcheck/vrp/string.go).
use go_tools.Common.{
  ◌≡◌, refl, ℕ, suc, ◌<◌, some, Bool, true, false, List, [], ◌∷◌, length, pos, arith, ltb, ◌==◌,
  ◌||◌, ◌&&◌,
}
use go_tools.Vrp.Z.{finite, p_infinity, cmp}
use go_tools.Vrp.Z.Order.{◌≤Z◌}
use go_tools.Vrp.Interval.{IntInterval, new_int_interval}
use go_tools.Vrp.Interval.Set.{Contains}
use go_tools.Vrp.Token.{gtr}
use go_tools.Vrp.Future.{admitted_strings}

-- The order of Go's strings: by bytes, a proper prefix first.
abbrev pub string_less : List ℕ → List ℕ → Bool
string_less xs [] = false
string_less [] (y ∷ ys) = true
string_less (x ∷ xs) (y ∷ ys) = ltb x y || (x == y && string_less xs ys)

-- The range of a constant string.
abbrev pub exactly : ℕ → IntInterval
exactly n = record { known = true; lower = finite (pos n); upper = finite (pos n) }

-- A string of one byte is greater than every longer string that begins with a smaller byte, but the
-- interval of lengths that `Resolve` sets for `>` against the longer string does not hold 1.
pub gtr_strings_unsound :
    (old : IntInterval) (x y z : ℕ) (rest : List ℕ)
    → y < x
    → (string_less (y ∷ z ∷ rest) (x ∷ []) ≡ true)
      × ((i : IntInterval) × (admitted_strings old gtr (exactly (length (y ∷ z ∷ rest))) ≡ some i)
          × ¬ Contains i (pos (length (x ∷ []))))
unfolding admitted_strings new_int_interval cmp
gtr_strings_unsound old x y z rest h = (
  ground arith,
  (
    record { known = true; lower = finite (pos (length (y ∷ z ∷ rest))); upper = p_infinity },
    refl,
    λ k. absurd_length (length rest) k.above,
  ),
)
  where
    absurd_length : (n : ℕ) → finite (pos (suc (suc n))) ≤Z finite (pos 1) → ⊥
    absurd_length n h = omega arith
