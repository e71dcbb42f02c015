-- ===== src/Vrp/Constraint.antt =====
-- The constraints of staticcheck/vrp: int.go, string.go, slice.go, channel.go and vrp.go.
use go_tools.Common.{Bool, false, Option, none, some, List, [], ◌∷◌}
use go_tools.Vrp.Interval.{IntInterval, unknown}
use go_tools.Vrp.Token.{Token}
use go_tools.Vrp.Range.{Value}

-- The fields that `IntIntersectionConstraint` and `StringIntersectionConstraint` share. The field
-- `ranges`, which is the graph's own map, is passed to the functions that read it.
pub record Meet : Type 0 where
  pub a : Value
  pub b : Value
  pub op : Token
  pub i : IntInterval
  pub resolved : Bool

-- The last value of each is `Y()`. The values before it stand in the order of the source's fields.
pub data Constraint : Type 0 where
  phi : List Value → Value → Constraint
  int_add int_sub int_mul : Value → Value → Value → Constraint
  int_conversion : Value → Value → Constraint
  int_intersection string_intersection : Meet → Value → Constraint
  int_interval string_interval slice_interval : IntInterval → Value → Constraint
  string_slice slice_slice array_slice : Value → Option Value → Option Value → Value → Constraint
  string_concat slice_append : Value → Value → Value → Constraint
  string_length slice_length : Value → Value → Constraint
  slice_intersection : Value → IntInterval → Value → Constraint
  make_slice make_channel : Value → Value → Constraint
  channel_change_type copy : Value → Value → Constraint

unfoldable pub result : Constraint → Value
result (phi vars y) = y
result (int_add a b y) = y
result (int_sub a b y) = y
result (int_mul a b y) = y
result (int_conversion x y) = y
result (int_intersection m y) = y
result (string_intersection m y) = y
result (int_interval i y) = y
result (string_interval i y) = y
result (slice_interval i y) = y
result (string_slice x l u y) = y
result (slice_slice x l u y) = y
result (array_slice x l u y) = y
result (string_concat a b y) = y
result (slice_append a b y) = y
result (string_length x y) = y
result (slice_length x y) = y
result (slice_intersection x i y) = y
result (make_slice size y) = y
result (make_channel buffer y) = y
result (channel_change_type x y) = y
result (copy x y) = y

-- A bound that is there, as a list.
abbrev present : Option Value → List Value
present none = []
present (some v) = v ∷ []

abbrev with_bounds : Value → Option Value → Option Value → List Value
with_bounds x none upper = x ∷ present upper
with_bounds x (some l) upper = x ∷ l ∷ present upper

unfoldable pub operands : Constraint → List Value
operands (phi vars y) = vars
operands (int_add a b y) = a ∷ b ∷ []
operands (int_sub a b y) = a ∷ b ∷ []
operands (int_mul a b y) = a ∷ b ∷ []
operands (int_conversion x y) = x ∷ []
operands (int_intersection m y) = m.a ∷ []
operands (string_intersection m y) = m.a ∷ []
operands (int_interval i y) = []
operands (string_interval i y) = []
operands (slice_interval i y) = []
operands (string_slice x l u y) = with_bounds x l u
operands (slice_slice x l u y) = with_bounds x l u
operands (array_slice x l u y) = with_bounds x l u
operands (string_concat a b y) = a ∷ b ∷ []
operands (slice_append a b y) = a ∷ b ∷ []
operands (string_length x y) = x ∷ []
operands (slice_length x y) = x ∷ []
operands (slice_intersection x i y) = x ∷ []
operands (make_slice size y) = size ∷ []
operands (make_channel buffer y) = buffer ∷ []
operands (channel_change_type x y) = x ∷ []
operands (copy x y) = x ∷ []

-- `Futures()` of a constraint that is a `Future`; `none` for one that is not.
unfoldable pub futures : Constraint → Option (List Value)
futures (int_intersection m y) = some (m.b ∷ [])
futures (string_intersection m y) = some (m.b ∷ [])
futures _ = none

-- `NewIntIntersectionConstraint` and `NewStringIntersectionConstraint`
abbrev pub new_meet : Value → Value → Token → Meet
new_meet a b op = record { a = a; b = b; op = op; i = unknown; resolved = false }
