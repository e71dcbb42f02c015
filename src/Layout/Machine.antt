-- ===== src/Layout/Machine.antt =====
-- int64 in two's complement: a number below 2 ^ 64, with the operations of Go on it.
use go_tools.Common.{
  ℕ, ◌+◌, ◌-◌, ◌%◌, ◌≤◌, ◌<◌, ◌≡◌, Bool, Option, none, some, arith, if◌then◌else◌, ltb, leb, ◌==◌,
}

abbrev pub Int64 : Type 0
Int64 = ℕ

-- `x + y`
unfoldable pub add64 : Int64 → Int64 → Int64
add64 x y = (x + y) % 18446744073709551616

-- `x - y`
unfoldable pub sub64 : Int64 → Int64 → Int64
sub64 x y = (x + (18446744073709551616 - y)) % 18446744073709551616

-- `x < y`: the order of the numbers from -2 ^ 63 on.
unfoldable pub less64 : Int64 → Int64 → Bool
less64 x y =
    ltb ((x + 9223372036854775808) % 18446744073709551616)
      ((y + 9223372036854775808) % 18446744073709551616)

abbrev is_negative : Int64 → Bool
is_negative x = leb 9223372036854775808 x

abbrev magnitude : Int64 → ℕ
magnitude x = if is_negative x then 18446744073709551616 - x else x

-- `x % y`, with the sign of `x`; `none` is the panic for 0.
unfoldable pub rem64 : Int64 → Int64 → Option Int64
rem64 x y =
    if y == 0
    then none
    else (let m = magnitude x % magnitude y in
        some (if is_negative x then (18446744073709551616 - m) % 18446744073709551616 else m))

-- On numbers below 2 ^ 63 they are the operations of ℕ.
pub add64_small : (x y : Int64) → x + y < 9223372036854775808 → add64 x y ≡ x + y
unfolding add64
add64_small x y h = omega arith

pub sub64_small : (x y : Int64) → y ≤ x → x < 9223372036854775808 → sub64 x y ≡ x - y
unfolding sub64
sub64_small x y h k = omega arith

pub less64_small :
    (x y : Int64) → x < 9223372036854775808 → y < 9223372036854775808 → less64 x y ≡ ltb x y
unfolding less64
less64_small x y h k = ground arith

pub rem64_small :
    (x y : Int64)
    → x < 9223372036854775808
    → 0 < y
    → y < 9223372036854775808
    → rem64 x y ≡ some (x % y)
unfolding rem64
rem64_small x y h p k = ground arith
