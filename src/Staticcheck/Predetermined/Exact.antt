-- ===== src/Staticcheck/Predetermined/Exact.antt =====
-- About what `CheckPredeterminedBooleanExprs` (staticcheck/lint.go) reports.
use go_tools.Common.{
  eq_of_some, ◌≡◌, ◌↔◌, inl, inr, refl, subst, Option, none, some, Bool, true, false, not, ◌||◌,
  List, [], ◌∷◌, ℕ, suc, ◌+◌, ◌*◌, ◌≤◌, ◌<◌, arith, ◌==◌, ==_iff, length, if◌then◌else◌, Bool-cases,
  In, eq_some_of_bind,
}
use go_tools.Common.Search.{Below}
use go_tools.Vrp.Token.{Token}
use go_tools.Staticcheck.Constants.{Kind, convert, sources, Flows, Escapes}
use go_tools.Staticcheck.Constants.Exact.{IsExact, consts-IsExact}
use go_tools.Staticcheck.Predetermined.{
  is_comparison, is_empty, is_true, count_trues, verdict, check_predetermined,
}
use go_tools.Staticcheck.Predetermined.Counting.{
  Agree, IsCount, count_trues-IsCount, count_trues_lem,
}

module _ {V : Type 0} (compare : V → Token → Option V → Option Bool) (op : Token) where
  verdict-Agree :
      (b : Bool) (xs ys : List (Option V)) (vx vy : List ℕ)
      → verdict compare op (some (xs, vx)) (some (ys, vy)) ≡ some (some b)
      → (is_empty xs ≡ false) × (is_empty ys ≡ false) × Agree compare op b xs ys
  unfolding verdict
  verdict-Agree b [] ys vx vy e = cc
  verdict-Agree b (x ∷ xs) [] vx vy e = cc
  verdict-Agree b (x ∷ xs) (y ∷ ys) vx vy e =
      let (m, f, g) = eq_some_of_bind (count_trues compare op (x ∷ xs) (y ∷ ys) 0) _ e in
      let c = count_trues-IsCount compare op (x ∷ xs) (y ∷ ys) 0 m f in (refl, refl, pick m c g)
    where
      pick :
          (m : ℕ)
          → IsCount compare op 0 m (length (x ∷ xs) * length (y ∷ ys)) (x ∷ xs) (y ∷ ys)
          → (if (m == 0) || (m == length (x ∷ xs) * length (y ∷ ys))
              then some (some (not (m == 0)))
              else some none)
            ≡ some (some b)
          → Agree compare op b (x ∷ xs) (y ∷ ys)
      pick m c g = elim (Bool-cases (m == 0)) [
        | inl z ↦
            let q : false ≡ b = ground arith in
            subst (λ t. Agree compare op t (x ∷ xs) (y ∷ ys)) q (c.none_true ((==_iff m 0).0 z))
        | inr z ↦
            let all : (m == length (x ∷ xs) * length (y ∷ ys)) ≡ true = ground arith in
            let q : true ≡ b = ground arith in
            subst (λ t. Agree compare op t (x ∷ xs) (y ∷ ys)) q
              (c.all_true (omega (arith, (==_iff m (length (x ∷ xs) * length (y ∷ ys))).0 all)))
      ]

  verdict_of_Agree :
      (b : Bool) (xs ys : List (Option V)) (vx vy : List ℕ)
      → is_empty xs ≡ false
      → is_empty ys ≡ false
      → Agree compare op b xs ys
      → verdict compare op (some (xs, vx)) (some (ys, vy)) ≡ some (some b)
  unfolding verdict
  verdict_of_Agree b [] ys vx vy p q h = cc
  verdict_of_Agree b (x ∷ xs) [] vx vy p q h = cc
  verdict_of_Agree true (x ∷ xs) (y ∷ ys) vx vy p q h =
      rw (count_trues_lem compare op true (x ∷ xs) (y ∷ ys) 0 h) (full (length xs) (length ys))
    where
      full :
          (n m : ℕ)
          → (if ((0 + suc n * suc m) == 0) || ((0 + suc n * suc m) == suc n * suc m)
              then some (some (not ((0 + suc n * suc m) == 0)))
              else some none)
            ≡ some (some true)
      full n m = let some_pair : 0 < suc n * suc m = grind arith in ground arith
  verdict_of_Agree false (x ∷ xs) (y ∷ ys) vx vy p q h =
      rw (count_trues_lem compare op false (x ∷ xs) (y ∷ ys) 0 h) refl

In_of_nonempty : {A : Type 0} (xs : List A) → is_empty xs ≡ false → (x : A) × In x xs
In_of_nonempty [] e = cc
In_of_nonempty (x ∷ xs) e = (x, inl refl)

nonempty_of_In : {A : Type 0} (x : A) (xs : List A) → In x xs → is_empty xs ≡ false
nonempty_of_In x [] m = absurd m
nonempty_of_In x (y ∷ xs) m = refl

module _ {V : Type 0} (kind : ℕ → Kind V) (compare : V → Token → Option V → Option Bool)
    (op : Token) where
  -- How two constants compare, without the code's test: `b` says that the pair counts as true.
  pub data Compared : Bool → Option V → Option V → Type 0 where
    both_nil : Compared true none none
    left_nil : {d : V} → Compared false none (some d)
    compared : {b : Bool} {c : V} {d : Option V} → compare c op d ≡ some b → Compared b (some c) d

  Compared-iff : (b : Bool) (c d : Option V) → (is_true compare op c d ≡ some b) ↔ Compared b c d
  Compared-iff b none none =
      (λ e. subst (λ t. Compared t none none) (eq_of_some e) both_nil, λ h. nil_nil b h)
    where
      nil_nil : (b : Bool) → Compared b none none → some true ≡ some b
      nil_nil b both_nil = refl
  Compared-iff b none (some d) =
      (λ e. subst (λ t. Compared t none (some d)) (eq_of_some e) left_nil, λ h. nil_some b h)
    where
      nil_some : (b : Bool) → Compared b none (some d) → some false ≡ some b
      nil_some b left_nil = refl
  Compared-iff b (some c) d = (λ e. compared e, λ h. some_any b h)
    where
      some_any : (b : Bool) → Compared b (some c) d → compare c op d ≡ some b
      some_any b (compared e) = e

  -- Both operands can only be constants, are so at all, and each pair of these is compared to `b`.
  pub record IsDetermined (b : Bool) (x y : ℕ) : Type 0 where
    pub left_closed : Escapes kind x → ⊥
    pub right_closed : Escapes kind y → ⊥
    pub left : (c : Option V) × Flows kind c x
    pub right : (c : Option V) × Flows kind c y
    pub agrees : (c d : Option V) → Flows kind c x → Flows kind d y → Compared b c d

  module _ (same : Option V → Option V → Bool)
      (same_eq : (x y : Option V) → same x y ≡ true → x ≡ y) (k : ℕ)
      (sources-Below : (x : ℕ) → x < k → Below k (sources (kind x)))
      (converts_back : (x y : ℕ) → kind x ≡ convert y → y < x) where
    verdict_exact :
        (b : Bool) (x y : ℕ) (xs ys : Option (List (Option V) × List ℕ))
        → IsExact kind same same_eq k sources-Below converts_back x xs
        → IsExact kind same same_eq k sources-Below converts_back y ys
        → (verdict compare op xs ys ≡ some (some b)) ↔ IsDetermined b x y
    unfolding verdict
    verdict_exact b x y none ys e f = (λ h. cc, λ d. absurd (d.left_closed e))
    verdict_exact b x y (some (xs, vx)) none e f = (λ h. cc, λ d. absurd (d.right_closed f))
    verdict_exact b x y (some (xs, vx)) (some (ys, vy)) (e, e') (f, f') = (
      λ h.
          let (p, q, a) = verdict-Agree compare op b xs ys vx vy h in
          let (c, i) = In_of_nonempty xs p in
          let (d, j) = In_of_nonempty ys q in
          record {
            left_closed = e;
            right_closed = f;
            left = (c, (e' c).0 i);
            right = (d, (f' d).0 j);
            agrees = λ c d l m. (Compared-iff b c d).0 (a c d ((e' c).1 l) ((f' d).1 m));
          },
      λ d.
          let (c, l) = d.left in
          let (g, m) = d.right in
          verdict_of_Agree compare op b xs ys vx vy (nonempty_of_In c xs ((e' c).1 l))
            (nonempty_of_In g ys ((f' g).1 m))
            (λ c g i j. (Compared-iff b c g).1 (d.agrees c g ((e' c).0 i) ((f' g).0 j))),
    )

    -- Where values and what they may be are below `k`, a conversion is of a smaller value, equal constants
    -- are only taken for the same, and the fuel is at least `k * k + k`: a binary operation is reported as
    -- always `b` exactly if it is a comparison, nothing but constants comes to an operand over phis and
    -- conversions, some constant does to each, and each pair of these compares to `b`. Two constants
    -- without a value compare to true, whatever the operator, one without on the left and one with a value
    -- on the right to false, and the others to what constant.Compare answers; where that panics there is no
    -- report.
    pub check_predetermined_exact :
        (fuel : ℕ) (b : Bool) (x y : ℕ)
        → x < k
        → y < k
        → k * k + k ≤ fuel
        → (check_predetermined compare same kind fuel op x y ≡ some (some b))
          ↔ ((is_comparison op ≡ true) × IsDetermined b x y)
    unfolding check_predetermined
    check_predetermined_exact fuel b x y hx hy h =
        let (xs, e, p) =
          consts-IsExact kind same same_eq k sources-Below converts_back fuel x hx h in
        let (ys, f, q) =
          consts-IsExact kind same same_eq k sources-Below converts_back fuel y hy h in
        let v = verdict_exact b x y xs ys p q in
        elim (Bool-cases (is_comparison op)) [
          | inl c ↦ rw (c, e, f) (λ h. (refl, v.0 h), λ d. v.1 d.1)
          | inr c ↦ rw c (λ h. cc, λ d. cc)
        ]
