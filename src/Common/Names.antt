-- ===== src/Common/Names.antt =====
-- Go strings as lists of bytes, and `==` on them.
use Prim.Native.Char.{code}
use Prim.Native.String.{String}
use Prim.Native.Nat.{ℕ}
use mathlib.Core.Bool.{Bool, true, false, ◌&&◌, ◌||◌}
use mathlib.Core.List.{List, [], ◌∷◌}
use go_tools.Common.Tests.{◌==◌}

abbrev pub Name : Type 0
Name = List ℕ

abbrev pub names_equal : Name → Name → Bool
names_equal [] [] = true
names_equal (a ∷ s) (b ∷ t) = (a == b) && names_equal s t
names_equal _ _ = false

-- strings.HasPrefix(s, t) and strings.HasSuffix(s, t)
abbrev pub has_prefix : Name → Name → Bool
has_prefix s [] = true
has_prefix [] (b ∷ t) = false
has_prefix (a ∷ s) (b ∷ t) = (a == b) && has_prefix s t

abbrev pub has_suffix : Name → Name → Bool
has_suffix [] t = names_equal [] t
has_suffix (a ∷ s) t = names_equal (a ∷ s) t || has_suffix s t

-- The bytes of a text of ASCII characters.
abbrev pub bytes : String → Name
bytes String.[] = []
bytes (String.◌∷◌ c s) = code c ∷ bytes s
