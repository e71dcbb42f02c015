-- ===== src/Staticcheck/Recursion.antt =====
-- `CheckInfiniteRecursion` of staticcheck/lint.go.
pub mod Paths
use go_tools.Common.{◌≡◌, Bool, true, false, not, ◌&&◌, ◌||◌, List, [], ◌∷◌, ℕ, if◌then◌else◌}

-- An instruction of a block, a Return or another.
pub data BlockInstr : Type 0 where
  return_instr other_instr : BlockInstr

pub record Block : Type 0 where
  pub index : ℕ
  pub instrs : List BlockInstr

-- Whether the block has instructions, the last of which is a Return.
unfoldable pub ends_in_return : List BlockInstr → Bool
ends_in_return [] = false
ends_in_return (return_instr ∷ []) = true
ends_in_return (other_instr ∷ []) = false
ends_in_return (i ∷ j ∷ instrs) = ends_in_return (j ∷ instrs)

-- What is read of an edge that leaves the node of the function in the call graph: whether its callee is
-- that node, whether its site is a go statement, and the block of its site.
pub record CallEdge : Type 0 where
  pub to_self : Bool
  pub is_go : Bool
  pub block : ℕ

-- `dominates` is the method Dominates of package ssa.
module _ (dominates : ℕ → ℕ → Bool) where
  -- The loop over the blocks, which sets `canReturn`.
  unfoldable pub can_return : ℕ → List Block → Bool
  unfolding ends_in_return
  can_return block [] = false
  can_return block (b ∷ blocks) =
      let rest = can_return block blocks in
      if dominates block b.index then rest else if ends_in_return b.instrs then true else rest

  -- Whether the site of an edge is reported.
  unfoldable pub check_recursion : List Block → CallEdge → Bool
  unfolding can_return
  check_recursion blocks edge =
      if not edge.to_self || edge.is_go then false else not (can_return edge.block blocks)
