-- ===== src/Vrp/Eval/Phi.antt =====
-- `PhiConstraint.Eval` of staticcheck/vrp/vrp.go.
use go_tools.Common.{◌≡◌, refl, ◌⊎◌, inl, inr, some, none, ℤ, List, [], ◌∷◌, All}
use go_tools.Vrp.Interval.{IntInterval}
use go_tools.Vrp.Interval.Set.{Contains}
use go_tools.Vrp.Range.{Shape, make, Value, Ranges, Types, get}
use go_tools.Vrp.Range.Hull.{IsRange, IsRange-Contains, union-IsJoin, union-none}
use go_tools.Vrp.Eval.{eval_phi}
use go_tools.Vrp.Eval.Transfer.{Yields}

module _ (ts : Types) (r : Ranges) (s : Shape) where
  -- The range of `v` is of the given type: unknown, or valid.
  pub record HasRange (v : Value) : Type 0 where
    pub i : IntInterval
    pub found : get ts.type_of r (some v) ≡ some (make s i)
    pub range : IsRange i

  -- One of the variables has a range that holds `n`.
  abbrev pub SomeHolds : ℤ → (vars : List Value) → All HasRange vars → Type 0
  SomeHolds n [] hs = ⊥
  SomeHolds n (v ∷ vars) hs = Contains (hs.0).i n ⊎ SomeHolds n vars hs.1

  -- What the loop answers from the union so far.
  record IsUnion (j : IntInterval) (vars : List Value) (hs : All HasRange vars) (k : IntInterval)
      : Type 0 where
    range : IsRange k
    before : (n : ℤ) → Contains j n → Contains k n
    each : (n : ℤ) → SomeHolds n vars hs → Contains k n

  eval_phi_from :
      (vars : List Value) (hs : All HasRange vars) (j : IntInterval)
      → IsRange j
      → (k : IntInterval) × (eval_phi ts r (some (make s j)) vars ≡ some (some (make s k)))
        × IsUnion j vars hs k
  unfolding eval_phi
  eval_phi_from [] hs j rj =
      (j, refl, record { range = rj; before = λ n k. k; each = λ n h. absurd h })
  eval_phi_from (v ∷ vars) hs j rj =
      let h = hs.0 in
      let (m, em, join) = union-IsJoin s h.i h.range j rj in
      let (k, ek, u) = eval_phi_from vars hs.1 m join.range in
      (
        k,
        rw (h.found, em) ek,
        record {
          range = u.range;
          before = λ n c. u.before n (join.right n c);
          each = λ n c. elim c [ inl c ↦ u.before n (join.left n c) | inr c ↦ u.each n c ];
        },
      )

  -- A φ whose operands have ranges of one type, known or not, the range of one of which holds `n`,
  -- answers without a panic a valid range that holds `n`.
  pub eval_phi_sound :
      (n : ℤ) (vars : List Value) (hs : All HasRange vars)
      → SomeHolds n vars hs
      → Yields s n (eval_phi ts r none vars)
  unfolding eval_phi
  eval_phi_sound n [] hs c = elim c [ ]
  eval_phi_sound n (v ∷ vars) hs c =
      let h = hs.0 in
      let (m, em, join) = union-none s h.i h.range in
      let (k, ek, u) = eval_phi_from vars hs.1 m join.range in
      let held = elim c as (λ _. Contains k n) [
        | inl c ↦ u.before n (join.left n c)
        | inr c ↦ u.each n c
      ] in
      (k, rw (h.found, em) ek, IsRange-Contains k u.range held, held)
