-- ===== src/Staticcheck/Examples.antt =====
-- Tests of the checks of staticcheck, and their theorems at concrete inputs.
use go_tools.Common.{
  inl, inr, Bool-cases, In, ◌≡◌, ◌≢◌, ◌↔◌, inr, refl, sym, subst, Option, none, some, Bool, true,
  false, ◌||◌, List, [], ◌∷◌, ℕ, ◌<◌, ◌==◌, ==_iff, ltb, if◌then◌else◌, arith, ℤ, pos, ◌≤ℤ◌,
  eq_of_some,
}
use go_tools.Common.Search.{member, Below}
use go_tools.Vrp.Z.{finite, cmp, max_z, min_z, max_z_from, min_z_from}
use go_tools.Vrp.Interval.{IntInterval, intersection, new_int_interval}
use go_tools.Vrp.Range.{
  Range, Ranges, Value, int_range, string_range, slice_range, interval, other_type, find, get,
}
use go_tools.Vrp.Token.{Token, lss, eql}
use go_tools.Staticcheck.Constants.{Kind, phi, const, convert, other, consts, sources}
use go_tools.Staticcheck.Constants.Exact.{IsExact, consts-IsExact}
use go_tools.Staticcheck.Predetermined.{is_comparison, check_predetermined}
use go_tools.Staticcheck.Predetermined.Exact.{IsDetermined, check_predetermined_exact}
use go_tools.Staticcheck.Appends
use go_tools.Staticcheck.Appends.{Use, check_append, next}
use go_tools.Staticcheck.Appends.Exact.{IsIneffective, check_append_exact}
use go_tools.Staticcheck.Recursion.{
  return_instr, other_instr, Block, CallEdge, ends_in_return, check_recursion,
}
use go_tools.Staticcheck.Recursion.Paths.{Route, start, onward, check_recursion_sound}
use go_tools.Staticcheck.Ranged.{check_index, check_sizes, int_value, is_equality}
use go_tools.Staticcheck.Ranged.Sound.{Holds, Describes, check_index_sound, check_sizes_sound}
use go_tools.Staticcheck.Ranged.Rules.{int_value_sound}

-- 0 is the phi of 1, 2 and itself, where 1 is the constant 3 and 2 its conversion; 3 is the constant 5.
abbrev values : ℕ → Kind ℕ
values v =
    if v == 0
    then phi (1 ∷ 2 ∷ 0 ∷ [])
    else if v == 1
    then const (some 3)
    else if v == 2
    then convert 1
    else if v == 3
    then const (some 5)
    else other

abbrev same : Option ℕ → Option ℕ → Bool
same none none = true
same (some a) (some b) = a == b
same _ _ = false

same_eq : (x y : Option ℕ) → same x y ≡ true → x ≡ y
same_eq none none e = refl
same_eq (some a) (some b) e = ground (arith, e, ==_iff a b)
same_eq none (some b) e = cc
same_eq (some a) none e = cc

abbrev compare_numbers : ℕ → Token → Option ℕ → Option Bool
compare_numbers a lss (some b) = some (ltb a b)
compare_numbers a eql (some b) = some (a == b)
compare_numbers a _ _ = none

values-Below : (x : ℕ) → x < 4 → Below 4 (sources (values x))
values-Below x h y m = ground arith

values_back : (x y : ℕ) → values x ≡ convert y → y < x
values_back x y e = ground (arith, ==_iff x 2)

consts_test : consts same values 20 0 [] [] ≡ some (some (some 3 ∷ [], 0 ∷ []))
unfolding consts
consts_test = refl

predetermined_test : check_predetermined compare_numbers same values 20 lss 0 3 ≡ some (some true)
unfolding check_predetermined consts
predetermined_test = refl

consts-IsExact_example :
    (a : Option (List (Option ℕ) × List ℕ)) × (consts same values 20 0 [] [] ≡ some a)
    × IsExact values same same_eq 4 values-Below values_back 0 a
consts-IsExact_example =
    consts-IsExact values same same_eq 4 values-Below values_back 20 0 (omega arith) (omega arith)

check_predetermined_exact_example :
    (check_predetermined compare_numbers same values 20 lss 0 3 ≡ some (some true))
    ↔ ((is_comparison lss ≡ true) × IsDetermined values compare_numbers lss true 0 3)
check_predetermined_exact_example =
    check_predetermined_exact values compare_numbers lss same same_eq 4 values-Below values_back 20
      true 0 3 (omega arith) (omega arith) (omega arith)

-- 0 is a phi and 1 a call of append that refer to each other, 2 a debug reference, 3 a store.
abbrev instructions : ℕ → Use
instructions v =
    if v == 0
    then Appends.phi
    else if v == 1
    then Appends.append
    else if v == 2
    then Appends.debug_ref
    else Appends.statement

abbrev references : ℕ → List ℕ
references v = if v == 0 then 1 ∷ 2 ∷ [] else if v == 1 then 0 ∷ [] else []

append_test : check_append instructions references 9 Appends.append (some (0 ∷ [])) ≡ some true
unfolding check_append
append_test = refl

append_used_test :
    check_append instructions references 9 Appends.append (some (0 ∷ 3 ∷ [])) ≡ some false
unfolding check_append
append_used_test = refl

references-Below : (x : ℕ) → x < 4 → Below 4 (next instructions references x)
references-Below x h y m = ground arith

check_append_exact_example :
    (b : Bool) × (check_append instructions references 9 Appends.append (some (0 ∷ [])) ≡ some b)
    × ((b ≡ true) ↔ IsIneffective instructions references Appends.append (some (0 ∷ [])))
check_append_exact_example =
    check_append_exact instructions references 4 9 Appends.append (some (0 ∷ [])) references-Below
      (λ rs e y m.
        ground (arith, subst (λ l. member y l ≡ true) (sym (eq_of_some e)) m, ==_iff y 0))
      (omega arith)

abbrev exactly : ℤ → IntInterval
exactly n = record { known = true; lower = finite n; upper = finite n }

exactly-Describes : (n : ℤ) → Describes (exactly n) n
exactly-Describes n = inr (
  record { is_known = refl; lower_proper = tt; upper_proper = tt; ordered = inr (omega arith) },
  record { is_known = refl; above = omega arith; below = omega arith },
)

-- In the run 1 is a slice of length 3, 2 is the number 4, and 3 and 4 are strings of lengths 1 and 2.
abbrev ranges : Ranges
ranges =
    (1, some (slice_range (exactly (pos 3))))
    ∷ (2, some (int_range (exactly (pos 4))))
    ∷ (3, some (string_range (exactly (pos 1))))
    ∷ (4, some (string_range (exactly (pos 2))))
    ∷ []

abbrev run : Value → ℤ
run x = if 1 == x then pos 3 else if 2 == x then pos 4 else if 3 == x then pos 1 else pos 2

Describes-at :
    (one two three four : Bool) (g : Range)
    → (elim (if one
        then some (some (slice_range (exactly (pos 3))))
        else if two
        then some (some (int_range (exactly (pos 4))))
        else if three
        then some (some (string_range (exactly (pos 1))))
        else if four
        then some (some (string_range (exactly (pos 2))))
        else none) [ none ↦ none | some i ↦ i ])
      ≡ some g
    → Describes
        (interval g)
        (if one then pos 3 else if two then pos 4 else if three then pos 1 else pos 2)
Describes-at true two three four g e =
    subst (λ r. Describes (interval r) (pos 3)) (eq_of_some e) (exactly-Describes (pos 3))
Describes-at false true three four g e =
    subst (λ r. Describes (interval r) (pos 4)) (eq_of_some e) (exactly-Describes (pos 4))
Describes-at false false true four g e =
    subst (λ r. Describes (interval r) (pos 1)) (eq_of_some e) (exactly-Describes (pos 1))
Describes-at false false false true g e =
    subst (λ r. Describes (interval r) (pos 2)) (eq_of_some e) (exactly-Describes (pos 2))
Describes-at false false false false g e = cc

ranges-Holds : Holds ranges run
unfolding find
ranges-Holds x g e = Describes-at (1 == x) (2 == x) (3 == x) (4 == x) g e

index_test : check_index ranges true 1 2 ≡ some true
unfolding check_index find cmp
index_test = refl

sizes_test : check_sizes (λ x. other_type) ranges eql true false 3 4 ≡ some true
unfolding check_sizes get cmp intersection new_int_interval max_z min_z max_z_from min_z_from
sizes_test = refl

check_index_sound_example :
    (b : Bool) × (check_index ranges true 1 2 ≡ some b)
    × (b ≡ true → (true ≡ true) × (run 1 ≤ℤ run 2))
check_index_sound_example = check_index_sound ranges run true 1 2 ranges-Holds

check_sizes_sound_example :
    (b : Bool) × (check_sizes (λ x. other_type) ranges eql true false 3 4 ≡ some b)
    × (b ≡ true → (is_equality eql ≡ true) × ((true || false) ≡ true) × (run 3 ≢ run 4))
check_sizes_sound_example =
    check_sizes_sound (λ x. other_type) ranges run eql true false 3 4 ranges-Holds

int_value_sound_example :
    (b : Bool) × (int_value true (some (int_range (exactly (pos 4)))) (finite (pos 4)) ≡ some b)
    × (b ≡ true → finite (pos 4) ≡ finite (pos 4))
int_value_sound_example =
    int_value_sound true (int_range (exactly (pos 4))) (finite (pos 4)) (pos 4) tt
      (exactly-Describes (pos 4)) (λ e. refl)

-- Block 0 calls the function itself and leads to block 1, which returns.
abbrev blocks : List Block
blocks =
    record { index = 0; instrs = other_instr ∷ [] }
    ∷ record { index = 1; instrs = other_instr ∷ return_instr ∷ [] }
    ∷ []

abbrev block_successors : ℕ → List ℕ
block_successors b = if b == 0 then 1 ∷ [] else []

abbrev dominates : ℕ → ℕ → Bool
dominates a b = (a == 0) || (a == b)

abbrev self_call : CallEdge
self_call = record { to_self = true; is_go = false; block = 0 }

Route-ends :
    (b : ℕ) (path : List ℕ)
    → Route block_successors 0 b path
    → (member 0 path ≡ true) × (member b path ≡ true)
Route-ends b path start = (refl, refl)
Route-ends c path (onward {b = b} {bs = bs} r m) =
    (ground (arith, (Route-ends b bs r).0), ground (arith, ==_iff c c))

dominates_passes :
    (a b : ℕ) (path : List ℕ)
    → dominates a b ≡ true
    → Route block_successors 0 b path
    → member a path ≡ true
dominates_passes a b path d r =
    let (p, q) = Route-ends b path r in
    elim (Bool-cases (a == 0)) [
      | inl e ↦ subst (λ x. member x path ≡ true) (sym ((==_iff a 0).0 e)) p
      | inr e ↦ subst (λ x. member x path ≡ true) (sym ((==_iff a b).0 (ground arith))) q
    ]

reported : check_recursion dominates blocks self_call ≡ true
unfolding check_recursion
reported = refl

check_recursion_sound_example :
    (true ≡ true)
    × (false ≡ false)
    × ((b : Block) (path : List ℕ)
        → In b blocks
        → ends_in_return b.instrs ≡ true
        → Route block_successors 0 b.index path
        → member 0 path ≡ true)
check_recursion_sound_example =
    check_recursion_sound dominates block_successors 0 blocks self_call dominates_passes reported
