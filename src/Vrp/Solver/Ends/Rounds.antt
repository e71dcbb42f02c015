-- ===== src/Vrp/Solver/Ends/Rounds.antt =====
-- The worklist loop of `Solve` with `widen` (staticcheck/vrp/vrp.go), from its start to its end.
use go_tools.Common.{
  In, ◌≡◌, ◌≢◌, ◌⊎◌, refl, sym, ◌∙◌, subst, inl, inr, some, Bool, true, false, List, [], ◌∷◌, All,
  ℕ, zero, suc, ◌+◌, ◌*◌, ◌≤◌, ◌<◌, arith, ◌==◌, if◌then◌else◌, Bool-cases, length,
}
use go_tools.Common.Search.{member}
use go_tools.Vrp.Z.{Z}
use go_tools.Vrp.Z.Order.{IsProper}
use go_tools.Vrp.Constraint.{Constraint, result, operands}
use go_tools.Vrp.Range.{Shape, channel_shape, Value, Ranges, Types}
use go_tools.Vrp.Eval.Typed.{IsTyped, typed-Answers}
use go_tools.Vrp.Widen.{widen_int_interval}
use go_tools.Vrp.Widen.Terminates.{one_if}
use go_tools.Vrp.Solver.{widen, refine_uses, refine_loop}
use go_tools.Vrp.Solver.Ends.{widen-IsRefined}
use go_tools.Vrp.Solver.Ends.Frame.{IsLocal}
use go_tools.Vrp.Solver.Ends.Loop.{
  load, HasShapes, IsMet, Keeps, IsPending, refined-HasShapes, refined-Keeps, load-drop,
  still-IsMet, load-bounded, now-IsMet, eq_of_test,
}

-- The constraints of a component over the values `vs`, with the map that `uses` answers. The results
-- are no channels, and the operands have ranges of the types that the constraints want.
pub record IsComponent (ts : Types) (vs : List Value) (shape_of : Value → Shape)
    (cs : List Constraint) (uses : Value → List Constraint) : Type 0 where
  pub inside : (c : Constraint) → In c cs → member (result c) vs ≡ true
  pub refinable : (c : Constraint) → In c cs → shape_of (result c) ≢ channel_shape
  pub listed : (c : Constraint) (v : Value) → In c cs → member v (operands c) ≡ true → In c (uses v)
  pub drawn : (c : Constraint) (v : Value) → In c (uses v) → In c cs
  pub typed : (c : Constraint) → In c cs → IsTyped ts vs shape_of (shape_of (result c)) c

module _ (ts : Types) (consts : List Z) (ps : All IsProper consts) (vs : List Value)
    (shape_of : Value → Shape) (cs : List Constraint) (uses : Value → List Constraint)
    (h : IsComponent ts vs shape_of cs uses) where
  -- Each constraint is met or waits for an operand, but for those that are still to be visited.
  abbrev pub IsTracked : List Value → Ranges → List Constraint → Type 0
  IsTracked stack r us =
      (c : Constraint)
      → In c cs
      → IsLocal c
      → IsPending ts vs shape_of stack c ⊎ (IsMet ts vs shape_of r c ⊎ In c us)

  -- What some rounds make of ranges and a stack.
  pub record IsRound (r : Ranges) (stack : List Value) (r' : Ranges) (stack' : List Value)
      : Type 0 where
    pub shapes : HasShapes ts vs shape_of r'
    pub keeps : Keeps ts vs shape_of r r'
    pub lighter : length stack' + load ts consts vs r' ≤ length stack + load ts consts vs r
    pub tracked : IsTracked stack' r' []

  IsPending-more :
      (c : Constraint) (stack : List Value) (y : Value) (changed : Bool)
      → IsPending ts vs shape_of stack c
      → IsPending ts vs shape_of (if changed then y ∷ stack else stack) c
  IsPending-more c stack y true (v, m, n) = (v, m, ground arith)
  IsPending-more c stack y false p = p

  pushed-length :
      (y : Value) (stack : List Value) (changed : Bool)
      → length (if changed then y ∷ stack else stack) ≡ one_if changed + length stack
  pushed-length y stack true = omega arith
  pushed-length y stack false = omega arith

  -- What a call of `widen` for `u` makes of the ranges and the stack.
  record IsVisit (u : Constraint) (r : Ranges) (stack : List Value) (r1 : Ranges) (changed : Bool)
      : Type 0 where
    shapes : HasShapes ts vs shape_of r1
    keeps : Keeps ts vs shape_of r r1
    lighter : one_if changed + load ts consts vs r1 ≤ load ts consts vs r
    tracked :
        (c : Constraint)
        → In c cs
        → IsLocal c
        → IsMet ts vs shape_of r c
        → IsPending ts vs shape_of (if changed then result u ∷ stack else stack) c
          ⊎ IsMet ts vs shape_of r1 c
    own :
        IsLocal u
        → IsPending ts vs shape_of (if changed then result u ∷ stack else stack) u
          ⊎ IsMet ts vs shape_of r1 u

  widen-IsVisit :
      (u : Constraint) (r : Ranges) (stack : List Value)
      → In u cs
      → HasShapes ts vs shape_of r
      → (r1 : Ranges) × (changed : Bool) × (widen ts consts r u ≡ some (r1, changed))
        × IsVisit u r stack r1 changed
  widen-IsVisit u r stack d s =
      let b = h.inside u d in
      let (i, e, ri) = s (result u) b in
      let (j, ev, rj) = typed-Answers ts vs shape_of r s (shape_of (result u)) u (h.typed u d) in
      let (r1, changed, w, g) =
        widen-IsRefined ts consts u (shape_of (result u)) i j r ps (h.refinable u d) e ri ev rj in
      (
        r1,
        changed,
        w,
        record {
          shapes = refined-HasShapes ts vs shape_of consts u r r1 changed i j b s e g;
          keeps = refined-Keeps ts vs shape_of consts u r r1 changed i j b s e g;
          lighter = load-drop ts vs shape_of consts u r r1 changed i j b s e g vs b;
          tracked = λ c m l met.
              still-IsMet ts vs shape_of consts u r r1 changed i j b s e g c stack l (h.inside c m)
                met;
          own = λ l. now-IsMet ts vs shape_of consts u r r1 changed i j b s e g stack l ev;
        },
      )

  refine_uses-step :
      (u : Constraint) (us : List Constraint) (r r1 : Ranges) (stack : List Value) (changed : Bool)
      → widen ts consts r u ≡ some (r1, changed)
      → refine_uses ts (λ oi ni. widen_int_interval consts oi ni) r (u ∷ us) stack
        ≡ refine_uses ts
            (λ oi ni. widen_int_interval consts oi ni)
            r1
            us
            (if changed then result u ∷ stack else stack)
  unfolding refine_uses widen
  refine_uses-step u us r r1 stack changed w = rw w refl

  visited-IsTracked :
      (u : Constraint) (us : List Constraint) (r r1 : Ranges) (stack : List Value) (changed : Bool)
      → IsTracked stack r (u ∷ us)
      → IsVisit u r stack r1 changed
      → IsTracked (if changed then result u ∷ stack else stack) r1 us
  visited-IsTracked u us r r1 stack changed t k c m l = elim (t c m l) [
    | inl p ↦ inl (IsPending-more c stack (result u) changed p)
    | inr q ↦ elim q [
      | inl met ↦ elim (k.tracked c m l met) [ inl p ↦ inl p | inr p ↦ inr (inl p) ]
      | inr w ↦ elim w [
        | inr more ↦ inr (inr more)
        | inl e ↦
            subst
              (λ d.
                IsPending ts vs shape_of (if changed then result u ∷ stack else stack) d
                ⊎ (IsMet ts vs shape_of r1 d ⊎ In d us))
              e
              (elim (k.own (subst (λ d. IsLocal d) (sym e) l)) [
                | inl p ↦ inl p
                | inr p ↦ inr (inl p)
              ])
      ]
    ]
  ]

  refine_uses-IsRound :
      (us : List Constraint) (r : Ranges) (stack : List Value)
      → ((c : Constraint) → In c us → In c cs)
      → HasShapes ts vs shape_of r
      → IsTracked stack r us
      → (r' : Ranges) × (stack' : List Value) × (refine_uses ts
            (λ oi ni. widen_int_interval consts oi ni)
            r
            us
            stack
          ≡ some (r', stack'))
        × IsRound r stack r' stack'
  unfolding refine_uses
  refine_uses-IsRound [] r stack d s t = (
    r,
    stack,
    refl,
    record { shapes = s; keeps = λ v n m k. k; lighter = omega arith; tracked = t },
  )
  refine_uses-IsRound (u ∷ us) r stack d s t =
      let (r1, changed, w, k) = widen-IsVisit u r stack (d u (inl refl)) s in
      let (r2, stack2, q, l) =
        refine_uses-IsRound us r1 (if changed then result u ∷ stack else stack) (λ c m. d c (inr m))
          k.shapes (visited-IsTracked u us r r1 stack changed t k) in
      (
        r2,
        stack2,
        refine_uses-step u us r r1 stack changed w ∙ q,
        record {
          shapes = l.shapes;
          keeps = λ v n m x. l.keeps v n m (k.keeps v n m x);
          lighter = omega (arith, l.lighter, k.lighter, pushed-length (result u) stack changed);
          tracked = l.tracked;
        },
      )

  popped-IsTracked :
      (v : Value) (stack : List Value) (r : Ranges)
      → IsTracked (v ∷ stack) r []
      → IsTracked stack r (uses v)
  popped-IsTracked v stack r t c m l = elim (t c m l) [
    | inr q ↦ elim q [ inl met ↦ inr (inl met) | inr w ↦ absurd w ]
    | inl (x, o, n) ↦ elim (Bool-cases (x == v)) [
      | inl e ↦
          inr
            (inr (h.listed c v m (subst (λ y. member y (operands c) ≡ true) (eq_of_test x v e) o)))
      | inr e ↦ inl (x, o, ground arith)
    ]
  ]

  refine_loop-IsMet :
      (fuel : ℕ) (r : Ranges) (stack : List Value)
      → length stack + load ts consts vs r < fuel
      → HasShapes ts vs shape_of r
      → IsTracked stack r []
      → (r' : Ranges) × (refine_loop ts (λ oi ni. widen_int_interval consts oi ni) uses fuel r stack
          ≡ some r')
        × HasShapes ts vs shape_of r'
        × Keeps ts vs shape_of r r'
        × ((c : Constraint) → In c cs → IsLocal c → IsMet ts vs shape_of r' c)
  unfolding refine_loop
  refine_loop-IsMet zero r stack b s t = absurd (omega arith)
  refine_loop-IsMet (suc fuel) r [] b s t = (
    r,
    refl,
    s,
    λ v n m k. k,
    λ c m l. elim (t c m l) [
      | inl (v, o, e) ↦ cc
      | inr q ↦ elim q [ inl met ↦ met | inr w ↦ absurd w ]
    ],
  )
  refine_loop-IsMet (suc fuel) r (v ∷ stack) b s t =
      let (r1, stack1, e, k) =
        refine_uses-IsRound (uses v) r stack (λ c m. h.drawn c v m) s
          (popped-IsTracked v stack r t) in
      let (r2, q, s2, keeps, met) =
        refine_loop-IsMet fuel r1 stack1 (omega (arith, k.lighter)) k.shapes k.tracked in
      (r2, rw e q, s2, λ x n m a. keeps x n m (k.keeps x n m a), met)

  -- The loop of `Solve` over `entries` ends without a panic on a component whose values have ranges of
  -- their types, unknown or valid, and each of whose constraints is met by the ranges or has an operand
  -- on the stack. Its constraints have operands among the values of the component, with ranges of the
  -- types that they want, and valid intervals; an array slice is of an array, and a phi has an operand.
  -- Constraints of channels, of `make`, and for the meet of a slice are left out: `Eval`, or the
  -- assertion in `widen`, may panic on those. The stack's length and, for each value, twice the number
  -- of entries in the list of constants and three are enough rounds, and one for the end. The ranges
  -- still have their types and hold what they held, and each constraint but a conversion is met: the
  -- range of its result holds what `Eval` answers.
  pub refine_loop-ends :
      (fuel : ℕ) (r : Ranges) (stack : List Value)
      → length stack + length vs * (2 * length consts + 3) < fuel
      → HasShapes ts vs shape_of r
      → IsTracked stack r []
      → (r' : Ranges) × (refine_loop ts (λ oi ni. widen_int_interval consts oi ni) uses fuel r stack
          ≡ some r')
        × HasShapes ts vs shape_of r'
        × Keeps ts vs shape_of r r'
        × ((c : Constraint) → In c cs → IsLocal c → IsMet ts vs shape_of r' c)
  refine_loop-ends fuel r stack b =
      refine_loop-IsMet fuel r stack (omega (arith, load-bounded ts consts vs r))
