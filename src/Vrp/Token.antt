-- ===== src/Vrp/Token.antt =====
-- The operators of go/token that staticcheck/vrp tells apart, and `invertToken` and `flipToken` of
-- staticcheck/vrp/vrp.go.
use go_tools.Common.{ℕ, Bool, not, Option, none, some, ◌≡◌, ℤ, compare_ℤ, arith}
use mathlib.Core.Option
use go_tools.Vrp.Z.{is_minus, is_null, is_plus}

-- `other` is any token that the package does not name.
pub data Token : Type 0 where
  lss gtr eql neq geq leq add sub mul : Token
  other : ℕ → Token

unfoldable pub invert_token : Token → Option Token
invert_token lss = some geq
invert_token gtr = some leq
invert_token eql = some neq
invert_token neq = some eql
invert_token geq = some lss
invert_token leq = some gtr
invert_token _ = none

unfoldable pub flip_token : Token → Option Token
flip_token lss = some gtr
flip_token gtr = some lss
flip_token eql = some eql
flip_token neq = some neq
flip_token geq = some leq
flip_token leq = some geq
flip_token _ = none

-- What a comparison of two integers returns in a Go program; `none` if the token is none.
abbrev pub compares : Token → ℤ → ℤ → Option Bool
compares lss a b = some (is_minus (compare_ℤ a b))
compares gtr a b = some (is_plus (compare_ℤ a b))
compares eql a b = some (is_null (compare_ℤ a b))
compares neq a b = some (not (is_null (compare_ℤ a b)))
compares geq a b = some (not (is_minus (compare_ℤ a b)))
compares leq a b = some (not (is_plus (compare_ℤ a b)))
compares _ a b = none

-- The inverted operator is there exactly for a comparison, and answers the opposite.
pub invert_token_lem :
    (op : Token) (a b : ℤ)
    → Option.map (λ inverse. compares inverse a b) (invert_token op)
      ≡ Option.map (λ answer. some (not answer)) (compares op a b)
unfolding invert_token
invert_token_lem lss a b = ground arith
invert_token_lem _ a b = ground arith

-- The flipped operator is there exactly for a comparison, and answers the same on swapped operands.
pub flip_token_lem :
    (op : Token) (a b : ℤ)
    → Option.map (λ flipped. compares flipped b a) (flip_token op)
      ≡ Option.map (λ answer. some answer) (compares op a b)
unfolding flip_token
flip_token_lem lss a b = ground arith
flip_token_lem _ a b = ground arith
