-- ===== src/Staticcheck/Appends.antt =====
-- `CheckIneffectiveAppend` of staticcheck/lint.go.
pub mod Walk
pub mod Exact
use go_tools.Common.{
  ◌≡◌, Option, none, some, Bool, true, false, not, ◌||◌, List, [], ◌∷◌, ◌++◌, ℕ, zero, suc, ◌>>=◌,
}
use go_tools.Common.Search.{member, Leads}

-- What the walk tells apart of an instruction: debug_ref is a DebugRef, append a call of the builtin,
-- other_value any other ssa.Value, and statement an instruction without a value.
pub data Use : Type 0 where
  debug_ref phi sigma append other_value statement : Use

-- `kind` is the instruction's, and `referrers` what `Referrers` returns for one that is a value.
module _ (kind : ℕ → Use) (referrers : ℕ → List ℕ) where
  -- The fuel bounds the depth of the calls, and what is returned is `visited` and `isUsed`.
  unfoldable pub walk_refs : ℕ → List ℕ → List ℕ → Bool → Option (List ℕ × Bool)
  walk_refs fuel [] visited is_used = some (visited, is_used)
  walk_refs zero (ref ∷ refs) visited is_used = none
  walk_refs (suc fuel) (ref ∷ refs) visited is_used = elim (member ref visited) [
    | true ↦ walk_refs (suc fuel) refs visited is_used
    | false ↦ elim (kind ref) [
      | debug_ref ↦ walk_refs (suc fuel) refs (visited ++ ref ∷ []) is_used
      | phi ↦ do
        (visited', is_used') ← walk_refs fuel (referrers ref) (visited ++ ref ∷ []) is_used
        walk_refs (suc fuel) refs visited' is_used'
      | sigma ↦ do
        (visited', is_used') ← walk_refs fuel (referrers ref) (visited ++ ref ∷ []) is_used
        walk_refs (suc fuel) refs visited' is_used'
      | append ↦ do
        (visited', is_used') ← walk_refs fuel (referrers ref) (visited ++ ref ∷ []) is_used
        walk_refs (suc fuel) refs visited' is_used'
      | other_value ↦ walk_refs (suc fuel) refs (visited ++ ref ∷ []) true
      | statement ↦ some (visited ++ ref ∷ [], true)
    ]
  ]

  -- Whether an instruction is reported; `refs` is what its `Referrers` returns, where nil is `none`.
  unfoldable pub check_append : ℕ → Use → Option (List ℕ) → Option Bool
  unfolding walk_refs
  check_append fuel append (some refs) = do
    (visited, is_used) ← walk_refs fuel refs [] false
    some (not is_used)
  check_append fuel _ _ = some false

  -- Where the walk goes on.
  abbrev pub next : ℕ → List ℕ
  next ref = elim (kind ref) [
    | phi ↦ referrers ref
    | sigma ↦ referrers ref
    | append ↦ referrers ref
    | _ ↦ []
  ]

-- A use of the value itself.
pub data IsUse : Use → Type 0 where
  by_value : IsUse other_value
  by_statement : IsUse statement
