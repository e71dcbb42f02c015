-- ===== src/Vrp/Interval.antt =====
-- `IntInterval` of staticcheck/vrp/int.go. The proofs are in the modules below.
pub mod Set
pub mod Lattice
pub mod Sound
use go_tools.Common.{
  Bool, true, false, not, ◌&&◌, ◌||◌, Option, none, some, List, [], ◌∷◌, if◌then◌else◌, ◌>>=◌, pos,
}
use go_tools.Vrp.Z
use go_tools.Vrp.Z.{
  Z, unset, n_infinity, p_infinity, finite, is_minus, is_plus, is_n_infinity, is_p_infinity, cmp,
  max_z, min_z,
}

pub record IntInterval : Type 0 where
  pub known : Bool
  pub lower : Z
  pub upper : Z

-- IntInterval{}, the zero value
abbrev pub unknown : IntInterval
unknown = record { known = false; lower = unset; upper = unset }

-- EmptyIntInterval
abbrev pub empty_int_interval : IntInterval
empty_int_interval = record { known = true; lower = p_infinity; upper = n_infinity }

unfoldable pub new_int_interval : Z → Z → Option IntInterval
new_int_interval l u = do
  c ← cmp u l
  if is_minus c
      then some empty_int_interval
      else some (record { known = true; lower = l; upper = u })

-- `InfinityFor` of a value, by whether its type is an unsigned basic type.
unfoldable pub infinity_for : Bool → Option IntInterval
unfolding new_int_interval cmp
infinity_for unsigned =
    if unsigned
    then new_int_interval (finite (pos 0)) p_infinity
    else new_int_interval n_infinity p_infinity

abbrev pub empty : IntInterval → Bool
empty i = is_p_infinity i.lower && is_n_infinity i.upper

unfoldable pub is_max_range : IntInterval → Bool
is_max_range i = is_n_infinity i.lower && is_p_infinity i.upper

-- The last three statements of `Intersection`.
clip : IntInterval → IntInterval → Option IntInterval
clip i1 i2 = do
  l ← max_z (i1.lower ∷ i2.lower ∷ [])
  u ← min_z (i1.upper ∷ i2.upper ∷ [])
  i3 ← new_int_interval l u
  c ← cmp i3.lower i3.upper
  if is_plus c then some empty_int_interval else some i3

unfoldable pub intersection : IntInterval → IntInterval → Option IntInterval
unfolding clip
intersection i1 i2 =
    if not i1.known
    then some i2
    else if not i2.known
    then some i1
    else if empty i1 || empty i2
    then some empty_int_interval
    else clip i1 i2

-- `Union` of two intervals.
unfoldable pub union : IntInterval → IntInterval → Option IntInterval
union i1 i2 =
    if empty i1 || not i1.known then some i2 else if empty i2 || not i2.known then some i1 else do
      l ← min_z (i1.lower ∷ i2.lower ∷ [])
      u ← max_z (i1.upper ∷ i2.upper ∷ [])
      new_int_interval l u

unfoldable pub add : IntInterval → IntInterval → Option IntInterval
add i1 i2 =
    if empty i1 || empty i2
    then some empty_int_interval
    else do l ← Z.add i1.lower i2.lower; u ← Z.add i1.upper i2.upper; new_int_interval l u

unfoldable pub sub : IntInterval → IntInterval → Option IntInterval
sub i1 i2 =
    if empty i1 || empty i2
    then some empty_int_interval
    else do l ← Z.sub i1.lower i2.upper; u ← Z.sub i1.upper i2.lower; new_int_interval l u

-- The four products of the bounds, in the order of the source.
corner_products : IntInterval → IntInterval → Option (List Z)
corner_products i1 i2 = do
  a ← Z.mul i1.lower i2.lower
  b ← Z.mul i1.lower i2.upper
  c ← Z.mul i1.upper i2.lower
  d ← Z.mul i1.upper i2.upper
  some (a ∷ b ∷ c ∷ d ∷ [])

unfoldable pub mul : IntInterval → IntInterval → Option IntInterval
unfolding corner_products
mul i1 i2 = if empty i1 || empty i2 then some empty_int_interval else do
  corners ← corner_products i1 i2
  l ← min_z corners
  u ← max_z corners
  new_int_interval l u
