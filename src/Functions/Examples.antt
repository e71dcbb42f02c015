-- ===== src/Functions/Examples.antt =====
-- Tests of what is found out about functions, and the theorem on loops at a concrete input.
use go_tools.Common.{ℕ, zero, suc, ◌≡◌, refl, true, some, List, [], ◌∷◌, leb, arith}
use go_tools.Functions.{
  Function, Block, const, return, un_op, other_op, terminates, is_nil_error, find_loops,
}
use go_tools.Functions.Loops.{InRange, AreNaturalLoops, back_edges, find_loops-AreNaturalLoops}

-- 0 → 1 → 2 → 3, with edges back from 3 to 1 and from 2 to itself; 1 also leads to 4, which returns.
abbrev block_after : List ℕ → Block
block_after preds = record { preds = preds; instrs = un_op other_op ∷ [] }

abbrev looping : List Block
looping =
    block_after []
    ∷ block_after (0 ∷ 3 ∷ [])
    ∷ block_after (1 ∷ 2 ∷ [])
    ∷ block_after (2 ∷ [])
    ∷ record { preds = 1 ∷ []; instrs = return (const true ∷ []) ∷ [] }
    ∷ []

abbrev looping_function : Function
looping_function = record {
  self = 0;
  params = [];
  results = record { type = 0; is_error = true; is_interface = true } ∷ [];
  blocks = some looping;
}

abbrev tree : List ℕ
tree = 0 ∷ 1 ∷ 2 ∷ 3 ∷ 4 ∷ []

-- On the edges of this function `leb` answers as domination does.
loops_test : find_loops leb tree looping_function ≡ some ((1 ∷ 3 ∷ 2 ∷ []) ∷ (2 ∷ []) ∷ [])
unfolding find_loops
loops_test = refl

nil_error_test : (terminates looping_function ≡ true) × (is_nil_error looping_function ≡ some true)
unfolding terminates is_nil_error
nil_error_test = (refl, refl)

looping-InRange : InRange looping 5
looping-InRange zero x m = cc
looping-InRange (suc zero) x m = ground arith
looping-InRange (suc (suc zero)) x m = ground arith
looping-InRange (suc (suc (suc zero))) x m = ground arith
looping-InRange (suc (suc (suc (suc zero)))) x m = ground arith
looping-InRange (suc (suc (suc (suc (suc n))))) x m = cc

find_loops-AreNaturalLoops_example :
    (sets : List (List ℕ)) × (find_loops leb tree looping_function ≡ some sets)
    × AreNaturalLoops looping (back_edges leb looping tree) sets
find_loops-AreNaturalLoops_example =
    find_loops-AreNaturalLoops leb tree looping_function looping refl looping-InRange
