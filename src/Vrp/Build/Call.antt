-- ===== src/Vrp/Build/Call.antt =====
-- The constraints of a call in `BuildGraph` (staticcheck/vrp/vrp.go).
use go_tools.Common.{
  Bool, false, ◌||◌, Option, none, some, List, [], ◌∷◌, ◌++◌, if◌then◌else◌, ◌>>=◌, pos, negsuc,
  Name, names_equal, bytes, get_elem?,
}
use go_tools.Vrp.Z.{Z, finite, p_infinity}
use go_tools.Vrp.Interval.{new_int_interval}
use go_tools.Vrp.Constraint.{
  Constraint, int_interval, copy, string_length, slice_length, slice_append,
}
use go_tools.Vrp.Range.{text, basic, slice_type, Value, Types}

any_name : Name → List Name → Bool
any_name n [] = false
any_name n (m ∷ ms) = names_equal n m || any_name n ms

-- The functions whose result is an index, or -1.
abbrev index_functions : List Name
index_functions =
    bytes "bytes.Index"
    ∷ bytes "bytes.IndexAny"
    ∷ bytes "bytes.IndexByte"
    ∷ bytes "bytes.IndexFunc"
    ∷ bytes "bytes.IndexRune"
    ∷ bytes "bytes.LastIndex"
    ∷ bytes "bytes.LastIndexAny"
    ∷ bytes "bytes.LastIndexByte"
    ∷ bytes "bytes.LastIndexFunc"
    ∷ bytes "strings.Index"
    ∷ bytes "strings.IndexAny"
    ∷ bytes "strings.IndexByte"
    ∷ bytes "strings.IndexFunc"
    ∷ bytes "strings.IndexRune"
    ∷ bytes "strings.LastIndex"
    ∷ bytes "strings.LastIndexAny"
    ∷ bytes "strings.LastIndexByte"
    ∷ bytes "strings.LastIndexFunc"
    ∷ []

-- The functions that are taken to keep the length of their first, or of their second, argument.
abbrev case_functions : List Name
case_functions =
    bytes "bytes.Title"
    ∷ bytes "bytes.ToLower"
    ∷ bytes "bytes.ToTitle"
    ∷ bytes "bytes.ToUpper"
    ∷ bytes "strings.Title"
    ∷ bytes "strings.ToLower"
    ∷ bytes "strings.ToTitle"
    ∷ bytes "strings.ToUpper"
    ∷ []

abbrev special_functions : List Name
special_functions =
    bytes "bytes.ToLowerSpecial"
    ∷ bytes "bytes.ToTitleSpecial"
    ∷ bytes "bytes.ToUpperSpecial"
    ∷ bytes "strings.ToLowerSpecial"
    ∷ bytes "strings.ToTitleSpecial"
    ∷ bytes "strings.ToUpperSpecial"
    ∷ []

abbrev compare_functions : List Name
compare_functions = bytes "bytes.Compare" ∷ bytes "strings.Compare" ∷ []

abbrev count_functions : List Name
count_functions = bytes "bytes.Count" ∷ bytes "strings.Count" ∷ []

abbrev size_functions : List Name
size_functions =
    bytes "(*bytes.Buffer).Cap"
    ∷ bytes "(*bytes.Buffer).Len"
    ∷ bytes "(*bytes.Reader).Len"
    ∷ bytes "(*bytes.Reader).Size"
    ∷ []

between : Z → Z → Value → Option (List Constraint)
between l u y = do i ← new_int_interval l u; some (int_interval i y ∷ [])

copy_of : Option Value → Value → Option (List Constraint)
copy_of x y = do v ← x; some (copy v y ∷ [])

-- The `switch fn.FullName()`.
unfoldable pub callee_constraints : Value → Name → List Value → Option (List Constraint)
unfolding any_name between copy_of
callee_constraints y name args =
    if any_name name index_functions
    then between (finite (negsuc 0)) p_infinity y
    else if any_name name case_functions
    then copy_of (get_elem? args 0) y
    else if any_name name special_functions
    then copy_of (get_elem? args 1) y
    else if any_name name compare_functions
    then between (finite (negsuc 0)) (finite (pos 1)) y
    else if any_name name count_functions
    then between (finite (pos 0)) p_infinity y
    else if any_name name size_functions
    then between (finite (pos 0)) p_infinity y
    else some []

length_constraints : Types → Value → Value → List Constraint
length_constraints ts y x = elim (ts.type_of x) [
  | basic t ↦ elim t.kind [ text ↦ string_length x y ∷ [] | _ ↦ [] ]
  | slice_type ↦ slice_length x y ∷ []
  | _ ↦ []
]

-- The `switch builtin.Name()`.
unfoldable pub builtin_constraints : Types → Value → Name → List Value → Option (List Constraint)
unfolding length_constraints
builtin_constraints ts y name args =
    if names_equal name (bytes "len")
    then (do x ← get_elem? args 0; some (length_constraints ts y x))
    else if names_equal name (bytes "append")
    then (do a ← get_elem? args 0; b ← get_elem? args 1; some (slice_append a b y ∷ []))
    else some []

unfoldable pub call_constraints :
    Types → Value → Option Name → Option Name → List Value → Option (List Constraint)
unfolding callee_constraints builtin_constraints
call_constraints ts y callee builtin args = do
  cs ← elim callee [ none ↦ some [] | some name ↦ callee_constraints y name args ]
  rest ← elim builtin [ none ↦ some [] | some name ↦ builtin_constraints ts y name args ]
  some (cs ++ rest)
