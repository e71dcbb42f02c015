-- ===== src/Vrp/Solver/Ends/Loop.antt =====
-- What a call of `widen` (staticcheck/vrp/vrp.go) does to the constraints of a component.
use go_tools.Common.{
  ◌≡◌, ◌≢◌, ◌⊎◌, refl, sym, ◌∙◌, ap, subst, inl, inr, some, none, Option, Bool, true, false, List,
  [], ◌∷◌, ℤ, ℕ, ◌+◌, ◌*◌, ◌≤◌, arith, ◌==◌, ==_iff, if◌then◌else◌, Bool-cases, length, eq_of_some,
}
use go_tools.Common.Search.{member}
use go_tools.Vrp.Z.{Z}
use go_tools.Vrp.Interval.{IntInterval}
use go_tools.Vrp.Interval.Set.{Contains}
use go_tools.Vrp.Constraint.{Constraint, result, operands}
use go_tools.Vrp.Range.{Range, Shape, make, interval, Value, Ranges, Types, get}
use go_tools.Vrp.Range.Hull.{IsRange}
use go_tools.Vrp.Eval.{eval}
use go_tools.Vrp.Widen.Terminates.{one_if, rank-le}
use go_tools.Vrp.Solver.Ends.{weight, IsRefined}
use go_tools.Vrp.Solver.Ends.Frame.{IsLocal, Same, eval-Same}

pub eq_of_test : (a b : ℕ) → (a == b) ≡ true → a ≡ b
eq_of_test a b e = ground (arith, ==_iff a b)

ne_of_test : (a b : ℕ) → (a == b) ≡ false → a ≢ b
ne_of_test a b e q = ground (arith, ==_iff a b)

-- The weights of the ranges of some values.
abbrev weigh : List Z → Option Range → ℕ
weigh consts none = 0
weigh consts (some range) = weight consts (interval range)

abbrev pub load : Types → List Z → List Value → Ranges → ℕ
load ts consts [] r = 0
load ts consts (v ∷ vs) r = weigh consts (get ts.type_of r (some v)) + load ts consts vs r

interval-make : (s : Shape) (i : IntInterval) → interval (make s i) ≡ i
interval-make s i = ground arith

make-inj : (s : Shape) (i j : IntInterval) → some (some (make s i)) ≡ some (some (make s j)) → i ≡ j
make-inj s i j e =
    sym (interval-make s i) ∙ (ap interval (eq_of_some (eq_of_some e)) ∙ interval-make s j)

weight-le : (consts : List Z) (i : IntInterval) → weight consts i ≤ 2 * length consts + 3
weight-le consts i = ground (arith, rank-le consts i)

weigh-le : (consts : List Z) (m : Option Range) → weigh consts m ≤ 2 * length consts + 3
weigh-le consts none = omega arith
weigh-le consts (some range) = weight-le consts (interval range)

pub load-bounded :
    (ts : Types) (consts : List Z) (vs : List Value) (r : Ranges)
    → load ts consts vs r ≤ length vs * (2 * length consts + 3)
load-bounded ts consts [] r = omega arith
load-bounded ts consts (v ∷ vs) r =
    ground (arith, weigh-le consts (get ts.type_of r (some v)), load-bounded ts consts vs r)

module _ (ts : Types) (vs : List Value) (shape_of : Value → Shape) where
  -- The values have ranges of their types, unknown or valid ones.
  abbrev pub HasShapes : Ranges → Type 0
  HasShapes r =
      (v : Value)
      → member v vs ≡ true
      → (i : IntInterval) × (get ts.type_of r (some v) ≡ some (make (shape_of v) i)) × IsRange i

  -- The range of a value holds an integer, or the answer of `Eval` does.
  abbrev pub Holds : Ranges → Value → ℤ → Type 0
  Holds r v n =
      (i : IntInterval) × (get ts.type_of r (some v) ≡ some (make (shape_of v) i)) × Contains i n

  abbrev pub EvalHolds : Ranges → Constraint → ℤ → Type 0
  EvalHolds r c n =
      (j : IntInterval) × (eval ts r c ≡ some (some (make (shape_of (result c)) j))) × Contains j n

  -- The range of the result holds what `Eval` answers.
  abbrev pub IsMet : Ranges → Constraint → Type 0
  IsMet r c = (n : ℤ) → EvalHolds r c n → Holds r (result c) n

  abbrev pub Keeps : Ranges → Ranges → Type 0
  Keeps r r' = (v : Value) (n : ℤ) → member v vs ≡ true → Holds r v n → Holds r' v n

  -- An operand of the constraint is on the stack.
  abbrev pub IsPending : List Value → Constraint → Type 0
  IsPending stack c = (v : Value) × (member v (operands c) ≡ true) × (member v stack ≡ true)

  module _ (consts : List Z) (c : Constraint) (r r' : Ranges) (changed : Bool) (i j : IntInterval)
      (inside : member (result c) vs ≡ true) (shapes : HasShapes r)
      (e : get ts.type_of r (some (result c)) ≡ some (make (shape_of (result c)) i))
      (h : IsRefined ts consts c (shape_of (result c)) i j r r' changed) where
    pub refined-HasShapes : HasShapes r'
    refined-HasShapes v m = elim (Bool-cases (result c == v)) [
      | inl q ↦
          subst
            (λ u.
              (k : IntInterval) × (get ts.type_of r' (some u) ≡ some (make (shape_of u) k))
              × IsRange k)
            (eq_of_test (result c) v q) (h.k, h.found, h.growth.range)
      | inr q ↦ let (k, f, s) = shapes v m in (k, h.others v (ne_of_test (result c) v q) ∙ f, s)
    ]

    pub refined-Keeps : Keeps r r'
    refined-Keeps v n m (k, f, a) = elim (Bool-cases (result c == v)) [
      | inl q ↦
          subst (λ u. Holds r' u n) (eq_of_test (result c) v q)
            (
              h.k,
              h.found,
              h.growth.old n (
                  subst (λ x. Contains x n)
                    (make-inj (shape_of (result c)) k i (
                      ap some (
                        subst (λ u. some (make (shape_of u) k) ≡ get ts.type_of r (some u))
                          (sym (eq_of_test (result c) v q)) (sym f)
                        ∙ e)))
                    a),
            )
      | inr q ↦ (k, h.others v (ne_of_test (result c) v q) ∙ f, a)
    ]

    own_lighter :
        one_if changed + weigh consts (get ts.type_of r' (some (result c)))
        ≤ weigh consts (get ts.type_of r (some (result c)))
    own_lighter =
        rw
          (
            h.found,
            e,
            interval-make (shape_of (result c)) h.k,
            interval-make (shape_of (result c)) i,
          )
          h.growth.lighter

    refined-lighter :
        (v : Value)
        → weigh consts (get ts.type_of r' (some v)) ≤ weigh consts (get ts.type_of r (some v))
    refined-lighter v = elim (Bool-cases (result c == v)) [
      | inl q ↦
          subst
            (λ u.
              weigh consts (get ts.type_of r' (some u)) ≤ weigh consts (get ts.type_of r (some u)))
            (eq_of_test (result c) v q) (omega (arith, own_lighter))
      | inr q ↦ rw (h.others v (ne_of_test (result c) v q)) (omega arith)
    ]

    load-le : (us : List Value) → load ts consts us r' ≤ load ts consts us r
    load-le [] = omega arith
    load-le (u ∷ us) = omega (arith, refined-lighter u, load-le us)

    pub load-drop :
        (us : List Value)
        → member (result c) us ≡ true
        → one_if changed + load ts consts us r' ≤ load ts consts us r
    load-drop [] m = cc
    load-drop (u ∷ us) m = elim (Bool-cases (result c == u)) [
      | inl q ↦ omega (
        arith,
        load-le us,
        subst
            (λ v.
              one_if changed + weigh consts (get ts.type_of r' (some v))
              ≤ weigh consts (get ts.type_of r (some v)))
            (eq_of_test (result c) u q) own_lighter,
      )
      | inr q ↦ omega (arith, refined-lighter u, load-drop us (ground arith))
    ]

    -- The ranges of the operands of a constraint that does not read the result are as before.
    operands-Same :
        (d : Constraint) → member (result c) (operands d) ≡ false → Same ts r r' (operands d)
    operands-Same d n v m = h.others v (λ q. ground arith)

    -- A constraint that was met is still met, or an operand of it has changed.
    pub still-IsMet :
        (d : Constraint) (stack : List Value)
        → IsLocal d
        → member (result d) vs ≡ true
        → IsMet r d
        → IsPending (if changed then result c ∷ stack else stack) d ⊎ IsMet r' d
    still-IsMet d stack l b met = elim (Bool-cases changed) [
      | inr n ↦ inr (subst (λ x. IsMet x d) (sym (h.same n)) met)
      | inl y ↦ elim (Bool-cases (member (result c) (operands d))) [
        | inl m ↦ inl (result c, m, rw y (ground (arith, ==_iff (result c) (result c))))
        | inr n ↦ inr (λ x (k, a, g).
            refined-Keeps (result d) x b
              (met x (k, sym (eval-Same ts r r' d l (operands-Same d n)) ∙ a, g)))
      ]
    ]

    pub now-IsMet :
        (stack : List Value)
        → IsLocal c
        → eval ts r c ≡ some (some (make (shape_of (result c)) j))
        → IsPending (if changed then result c ∷ stack else stack) c ⊎ IsMet r' c
    now-IsMet stack l ev = elim (Bool-cases (member (result c) (operands c))) [
      | inr n ↦ inr (λ x (k, a, g).
          (h.k, h.found, h.growth.new x (subst (λ y. Contains y x) (same_answer k n a) g)))
      | inl m ↦ elim (Bool-cases changed) [
        | inl y ↦ inl (result c, m, rw y (ground (arith, ==_iff (result c) (result c))))
        | inr n ↦ inr (λ x (k, a, g). (
          h.k,
          h.found,
          h.growth.new x (
              subst (λ y. Contains y x)
                (make-inj (shape_of (result c)) k j
                  (sym a ∙ (subst (λ q. eval ts r' c ≡ eval ts q c) (h.same n) refl ∙ ev)))
                g),
        ))
      ]
    ]
      where
        same_answer :
            (k : IntInterval)
            → member (result c) (operands c) ≡ false
            → eval ts r' c ≡ some (some (make (shape_of (result c)) k))
            → k ≡ j
        same_answer k n a =
            make-inj (shape_of (result c)) k j
              (sym a ∙ (eval-Same ts r r' c l (operands-Same c n) ∙ ev))
