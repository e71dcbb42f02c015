-- ===== src/Staticcheck/Recursion/Paths.antt =====
-- About what `CheckInfiniteRecursion` (staticcheck/lint.go) reports.
use go_tools.Common.{◌≡◌, inl, inr, Bool, true, false, List, [], ◌∷◌, ℕ, arith, In, subst, sym}
use go_tools.Common.Search.{member}
use go_tools.Staticcheck.Recursion.{Block, CallEdge, ends_in_return, can_return, check_recursion}

-- The blocks of a path from the first block to another, in the order of the way back.
pub data Route (next : ℕ → List ℕ) (entry : ℕ) : ℕ → List ℕ → Type 0 where
  start : Route next entry entry (entry ∷ [])
  onward :
      {b c : ℕ} {bs : List ℕ}
      → Route next entry b bs
      → member c (next b) ≡ true
      → Route next entry c (c ∷ bs)

module _ (dominates : ℕ → ℕ → Bool) where
  can_return-none :
      (site : ℕ) (blocks : List Block) (b : Block)
      → can_return dominates site blocks ≡ false
      → In b blocks
      → ends_in_return b.instrs ≡ true
      → dominates site b.index ≡ true
  unfolding can_return
  can_return-none site [] b e m r = absurd m
  can_return-none site (c ∷ blocks) b e (inl q) r =
      let r' : ends_in_return c.instrs ≡ true =
        subst (λ d. ends_in_return d.instrs ≡ true) (sym q) r in
      subst (λ d. dominates site d.index ≡ true) q (ground (arith, r', e))
  can_return-none site (c ∷ blocks) b e (inr m) r =
      can_return-none site blocks b (ground (arith, e)) m r

  -- If Dominates is true only where each path to the second block passes the first, a reported site is
  -- that of a call of the function itself, not in a go statement, and each path through the function to
  -- a block that ends in a Return passes the block of the site.
  pub check_recursion_sound :
      (next : ℕ → List ℕ) (entry : ℕ) (blocks : List Block) (edge : CallEdge)
      → ((a b : ℕ) (path : List ℕ)
          → dominates a b ≡ true
          → Route next entry b path
          → member a path ≡ true)
      → check_recursion dominates blocks edge ≡ true
      → (edge.to_self ≡ true)
        × (edge.is_go ≡ false)
        × ((b : Block) (path : List ℕ)
            → In b blocks
            → ends_in_return b.instrs ≡ true
            → Route next entry b.index path
            → member edge.block path ≡ true)
  unfolding check_recursion
  check_recursion_sound next entry blocks edge h e =
      let self : edge.to_self ≡ true = ground (arith, e) in
      let go : edge.is_go ≡ false = ground (arith, e) in
      let none : can_return dominates edge.block blocks ≡ false = ground (arith, e) in
      (
        self,
        go,
        λ b path m r p. h edge.block b.index path (can_return-none edge.block blocks b none m r) p,
      )
