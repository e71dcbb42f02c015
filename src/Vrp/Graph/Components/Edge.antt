-- ===== src/Vrp/Graph/Components/Edge.antt =====
-- `FindSCCs` of staticcheck/vrp/vrp.go: one successor in the loop of `strongconnect`.
use go_tools.Common.{
  ℕ, ◌≤◌, ◌<◌, ◌≡◌, ◌≢◌, ◌⊎◌, inl, inr, refl, sym, ◌∙◌, subst, true, List, [], ◌∷◌, ◌==◌, ==_iff,
  Bool-cases, arith,
}
use go_tools.Common.Search.{member, Leads, here, step}
use go_tools.Vrp.Graph.Components.{Tarjan, enter}
use go_tools.Vrp.Graph.Components.Invariant.{
  member-append, IsClosed, IsAbove, IsState, Anchor, Follows, IsLowered,
}

pub eq_of_test : (a b : ℕ) → (a == b) ≡ true → a ≡ b
eq_of_test a b e = ground (arith, ==_iff a b)

module _ (next : ℕ → List ℕ) where
  pub lower-IsState :
      (v l : ℕ) (t t' : Tarjan) → IsState next t → IsLowered v l t t' → IsState next t'
  lower-IsState v l t t' h w = record {
    before = λ x. ground (arith, h.before x, w.index_same x, w.next_same);
    flagged = λ x e. ground (arith, h.flagged x, w.stack_same x, w.s_same);
    held = λ x m.
        let (s, i) = h.held x (subst (λ s. member x s ≡ true) (w.s_same) m) in
        (ground (arith, w.stack_same x), ground (arith, w.index_same x));
    numbered = λ x (i, s).
        ground (arith, h.numbered x, w.index_same x, w.stack_same x, w.scc_same x, w.count_same);
    closed = λ x y (i, s) m.
        let ((j, r), n) =
          h.closed x y (ground (arith, w.index_same x), ground (arith, w.stack_same x)) m in
        (
          (ground (arith, w.index_same y), ground (arith, w.stack_same y)),
          ground (arith, w.scc_same x, w.scc_same y),
        );
    linked = λ x y (i, s) (j, r) e.
        h.linked x y (ground (arith, w.index_same x), ground (arith, w.stack_same x))
          (ground (arith, w.index_same y), ground (arith, w.stack_same y))
          (ground (arith, w.scc_same x, w.scc_same y));
  }

  enter-others : (v x : ℕ) (t : Tarjan) → x ≢ v → (enter v t).marks x ≡ t.marks x
  unfolding enter
  enter-others v x t n = ground (arith, ==_iff v x)

  enter-IsClosed :
      (v x : ℕ) (t : Tarjan)
      → IsClosed (enter v t) x
      → IsClosed t x × ((enter v t).marks x ≡ t.marks x)
  unfolding enter
  enter-IsClosed v x t (i, s) =
      let e = enter-others v x t (λ q. ground (arith, ==_iff v x)) in
      ((ground arith, ground arith), e)

  IsClosed-enter :
      (v x : ℕ) (t : Tarjan)
      → (t.marks v).index ≡ 0
      → IsClosed t x
      → IsClosed (enter v t) x × ((enter v t).marks x ≡ t.marks x)
  IsClosed-enter v x t z (i, s) =
      let e = enter-others v x t (λ q. ground arith) in ((ground arith, ground arith), e)

  enter-IsState :
      (v : ℕ) (t : Tarjan) → (t.marks v).index ≡ 0 → IsState next t → IsState next (enter v t)
  unfolding enter
  enter-IsState v t z h = record {
    before = λ x. ground (arith, h.before x, h.before v, ==_iff v x);
    flagged = λ x e. ground (arith, h.flagged x, ==_iff v x, ==_iff x v);
    held = λ x m. elim (Bool-cases (v == x)) [
      | inl q ↦ (ground arith, ground (arith, h.before x))
      | inr n ↦
          let (s, i) = h.held x (ground (arith, ==_iff v x, ==_iff x v)) in
          (ground arith, ground arith)
    ];
    numbered = λ x c. let (d, e) = enter-IsClosed v x t c in ground (arith, h.numbered x d);
    closed = λ x y c m.
        let (d, e) = enter-IsClosed v x t c in
        let (b, n) = h.closed x y d m in let (a, f) = IsClosed-enter v y t z b in (a, ground arith);
    linked = λ x y c d e.
        let (c', f) = enter-IsClosed v x t c in
        let (d', g) = enter-IsClosed v y t d in h.linked x y c' d' (ground arith);
  }

  pub enter-Follows :
      (v : ℕ) (t : Tarjan)
      → (t.marks v).index ≡ 0
      → IsState next t
      → Follows next v t (next v) (enter v t)
  enter-Follows v t z h = record {
    state = enter-IsState v t z h;
    new = [];
    split = unfold enter in refl;
    kept = λ x i. enter-others v x t (λ q. ground arith);
    grown = λ x i j. unfold enter in ground (arith, ==_iff v x);
    later = unfold enter in omega arith;
    own = unfold enter in ground (arith, ==_iff v v);
    under = unfold enter in ground (arith, ==_iff v v);
    fresh = λ x m. cc;
    edges = λ x y m. cc;
    followed = λ y m. inl m;
    forth = λ x m. cc;
    back = λ x m. cc;
    low = inl (unfold enter in ground (arith, ==_iff v v));
  }

  -- A vertex that a step leaves alone stays above a bound that sinks.
  pub IsAbove-kept :
      (t t' : Tarjan) (l l' y : ℕ)
      → (t'.marks y).index ≡ (t.marks y).index
      → (t'.marks y).stack ≡ (t.marks y).stack
      → l' ≤ l
      → IsAbove t l y
      → IsAbove t' l' y
  IsAbove-kept t t' l l' y i s n (a, b) = (omega arith, λ r. ground (arith, b))

  -- What an entry of the stack that `v` leads to says of a bound on its index.
  pub on_stack-low :
      (v y : ℕ) (todo : List ℕ) (t t1 : Tarjan) (l : ℕ)
      → IsState next t
      → Follows next v t todo t1
      → member y t1.s ≡ true
      → (t1.marks y).index ≤ l
      → Leads next v y
      → (t.index ≤ l) ⊎ Anchor next t v l
  on_stack-low v y todo t t1 l h f m n d =
      let (s, i) = f.state.held y m in
      elim (Bool-cases (member y f.new)) [
        | inl k ↦ let (z, q) = f.fresh y k in inl (omega (arith, f.grown y z i, n))
        | inr k ↦ elim (Bool-cases (y == v)) [
          | inl q ↦ inl (ground (arith, f.own, ==_iff y v))
          | inr q ↦
              let b : member y t.s ≡ true =
                ground (arith, member-append y f.new (v ∷ t.s), f.split) in
              let (r, j) = h.held y b in inr (y, b, ground (arith, f.kept y j), d)
        ]
      ]

  pub lower-Follows :
      (v w : ℕ) (todo : List ℕ) (t t1 t2 : Tarjan)
      → (t.marks v).index ≡ 0
      → IsState next t
      → member w (next v) ≡ true
      → Follows next v t (w ∷ todo) t1
      → (t1.marks w).stack ≡ true
      → 0 < (t1.marks w).index
      → IsLowered v (t1.marks w).index t1 t2
      → Follows next v t todo t2
  lower-Follows v w todo t t1 t2 z h e f s i o = record {
    state = lower-IsState v (t1.marks w).index t1 t2 f.state o;
    new = f.new;
    split = o.s_same ∙ f.split;
    kept = λ x j. o.others x (λ q. ground arith) ∙ f.kept x j;
    grown = λ x j k. ground (arith, f.grown x, o.index_same x);
    later = ground (arith, f.later, o.next_same);
    own = o.index_same v ∙ f.own;
    under = omega (arith, o.not_raised, f.under);
    fresh = f.fresh;
    edges = λ x y m n. sinks y (f.edges x y m n);
    followed = λ y m. elim (f.followed y m) [
      | inr a ↦ inr (sinks y a)
      | inl a ↦ elim (Bool-cases (y == w)) [
        | inr n ↦ inl (ground arith)
        | inl q ↦ inr (
            subst (λ u. IsAbove t2 (t2.marks v).lowlink u) (sym (eq_of_test y w q))
              (omega (arith, i, o.index_same w), λ r. omega (arith, o.at_most, o.index_same w)))
      ]
    ];
    forth = f.forth;
    back = f.back;
    low = elim o.one_of [
      | inl p ↦
          on_stack-low v w (w ∷ todo) t t1 (t2.marks v).lowlink h f (f.state.flagged w s)
            (omega (arith, p)) (step e here)
      | inr p ↦ subst (λ l. (t.index ≤ l) ⊎ Anchor next t v l) (sym p) f.low
    ];
  }
    where
      sinks : (y : ℕ) → IsAbove t1 (t1.marks v).lowlink y → IsAbove t2 (t2.marks v).lowlink y
      sinks y a =
          IsAbove-kept t1 t2 (t1.marks v).lowlink (t2.marks v).lowlink y (o.index_same y)
            (o.stack_same y) o.not_raised a
