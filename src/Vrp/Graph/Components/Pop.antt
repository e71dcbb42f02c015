-- ===== src/Vrp/Graph/Components/Pop.antt =====
-- `FindSCCs` of staticcheck/vrp/vrp.go: the end of `strongconnect`, which pops a component.
use go_tools.Common.{
  append_assoc, ℕ, suc, ◌≤◌, ◌<◌, ◌≡◌, ◌⊎◌, inl, inr, refl, sym, ◌∙◌, ap, subst, true, false, some,
  List, [], ◌∷◌, ◌++◌, ◌==◌, ==_iff, Bool-cases, arith,
}
use go_tools.Common.Search.{member, Leads, here}
use go_tools.Vrp.Graph.Components.{Mark, Tarjan, update, pop, close}
use go_tools.Vrp.Graph.Components.Invariant.{
  member-append, IsClosed, IsAbove, IsState, Connected, Follows, Leads-trans,
}
use go_tools.Vrp.Graph.Components.Edge.{eq_of_test}

record IsPopped (gone : List ℕ) (scc : ℕ) (f f' : ℕ → Mark) : Type 0 where
  inside : (x : ℕ) → member x gone ≡ true → f' x ≡ record (f x) { scc = scc; stack = false }
  outside : (x : ℕ) → member x gone ≡ false → f' x ≡ f x

pop_lem :
    (v scc : ℕ) (f : ℕ → Mark) (new s : List ℕ)
    → member v new ≡ false
    → (f' : ℕ → Mark) × (pop v scc f (new ++ (v ∷ s)) ≡ some (f', s))
      × IsPopped (new ++ v ∷ []) scc f f'
unfolding pop
pop_lem v scc f [] s m = (
  update f v (record (f v) { scc = scc; stack = false }),
  ground (arith, ==_iff v v),
  record {
    inside = λ x k. ground (arith, ==_iff v x, ==_iff x v);
    outside = λ x k. ground (arith, ==_iff v x, ==_iff x v);
  },
)
pop_lem v scc f (w ∷ new) s m =
    let g = λ (x : ℕ). update f w (record (f w) { scc = scc; stack = false }) x in
    let (f', e, p) = pop_lem v scc g new s (ground arith) in
    (
      f',
      ground (arith, ==_iff w v, ==_iff v w),
      record {
        inside = λ x k. elim (Bool-cases (member x (new ++ v ∷ []))) [
          | inl q ↦ p.inside x q ∙ ground (arith, ==_iff w x)
          | inr q ↦ p.outside x q ∙ ground (arith, ==_iff w x, ==_iff x w)
        ];
        outside = λ x k. p.outside x (ground arith) ∙ ground (arith, ==_iff w x, ==_iff x w);
      },
    )

module _ (next : ℕ → List ℕ) (v : ℕ) (t t1 : Tarjan) (z : (t.marks v).index ≡ 0)
    (h : IsState next t) (f : Follows next v t [] t1) where
  parts : (x : ℕ) → member x (f.new ++ v ∷ []) ≡ true → (member x f.new ≡ true) ⊎ (x ≡ v)
  parts x m = ground (arith, member-append x f.new (v ∷ []), ==_iff x v)

  gone_fresh : (x : ℕ) → member x (f.new ++ v ∷ []) ≡ true → (t.marks x).index ≡ 0
  gone_fresh x m = elim (parts x m) [
    | inl k ↦ let (a, b) = f.fresh x k in a
    | inr q ↦ subst (λ u. (t.marks u).index ≡ 0) (sym q) z
  ]

  gone_forth : (x : ℕ) → member x (f.new ++ v ∷ []) ≡ true → Leads next v x
  gone_forth x m = elim (parts x m) [
    | inl k ↦ f.forth x k
    | inr q ↦ subst (λ u. Leads next v u) (sym q) here
  ]

  gone_back : (x : ℕ) → member x (f.new ++ v ∷ []) ≡ true → Leads next x v
  gone_back x m = elim (parts x m) [
    | inl k ↦ f.back x k
    | inr q ↦ subst (λ u. Leads next u v) (sym q) here
  ]

  gone_edges :
      (x y : ℕ)
      → member x (f.new ++ v ∷ []) ≡ true
      → member y (next x) ≡ true
      → IsAbove t1 (t1.marks v).lowlink y
  gone_edges x y m e = elim (parts x m) [
    | inl k ↦ f.edges x y k e
    | inr q ↦ elim (f.followed y (subst (λ u. member y (next u) ≡ true) q e)) [
      | inl a ↦ cc
      | inr a ↦ a
    ]
  ]

  left_open : ((t1.marks v).lowlink == (t1.marks v).index) ≡ false → Connected next v t t1
  left_open b = record {
    state = f.state;
    new = f.new ++ v ∷ [];
    split = f.split ∙ sym (append_assoc f.new (v ∷ []) t.s);
    kept = f.kept;
    grown = f.grown;
    later = omega (arith, f.later);
    entered = omega (arith, f.own, h.before v);
    alone = λ s. omega (arith, f.own, f.under);
    fresh = gone_fresh;
    edges = gone_edges;
    forth = gone_forth;
    back = gone_back;
    low = elim f.low [ inr a ↦ inr a | inl l ↦ absurd (ground (arith, f.own, f.under)) ];
  }

  module _ (g : ℕ → Mark) (p : IsPopped (f.new ++ v ∷ []) t1.scc t1.marks g)
      (b : (t1.marks v).lowlink ≡ (t1.marks v).index) where
    abbrev popped : Tarjan
    popped = record { marks = g; index = t1.index; s = t.s; scc = suc t1.scc }

    -- Each vertex seen is popped now, or it is as it was.
    fate :
        (x : ℕ)
        → ((member x (f.new ++ v ∷ []) ≡ true)
            × (g x ≡ record (t1.marks x) { scc = t1.scc; stack = false }))
          ⊎ ((member x (f.new ++ v ∷ []) ≡ false) × (g x ≡ t1.marks x))
    fate x = elim (Bool-cases (member x (f.new ++ v ∷ []))) [
      | inl m ↦ inl (m, p.inside x m)
      | inr m ↦ inr (m, p.outside x m)
    ]

    on_stack : (x : ℕ) → member x (f.new ++ v ∷ []) ≡ true → (t1.marks x).stack ≡ true
    on_stack x m =
        let (s, i) = f.state.held x (
          ground
            (arith, f.split, member-append x f.new (v ∷ t.s), member-append x f.new (v ∷ []))) in
        s

    -- What is on the stack and not popped was there before.
    remains :
        (x : ℕ)
        → member x (f.new ++ v ∷ []) ≡ false
        → (t1.marks x).stack ≡ true
        → member x t.s ≡ true
    remains x m s = ground (
      arith,
      f.state.flagged x s,
      f.split,
      member-append x f.new (v ∷ t.s),
      member-append x f.new (v ∷ []),
    )

    untouched : (x : ℕ) → 0 < (t.marks x).index → g x ≡ t1.marks x
    untouched x i = elim (fate x) [
      | inr (m, e) ↦ e
      | inl (m, e) ↦ absurd (omega (arith, gone_fresh x m))
    ]

    IsClosed-before : (x : ℕ) → g x ≡ t1.marks x → IsClosed popped x → IsClosed t1 x
    IsClosed-before x e (i, s) = (ground arith, ground arith)

    IsClosed-kept : (x : ℕ) → IsClosed t1 x → IsClosed popped x × ((g x).scc ≡ (t1.marks x).scc)
    IsClosed-kept x (i, s) = elim (fate x) [
      | inr (m, e) ↦ ((ground arith, ground arith), ap (λ k. k.scc) e)
      | inl (m, e) ↦ absurd (ground (arith, on_stack x m))
    ]

    gone-IsClosed :
        (x y : ℕ)
        → member x (f.new ++ v ∷ []) ≡ true
        → member y (next x) ≡ true
        → IsClosed popped y × ((g y).scc ≤ t1.scc)
    gone-IsClosed x y m e =
        let (i, a) = gone_edges x y m e in
        elim (fate y) [
          | inl (k, q) ↦ ((ground arith, ap (λ u. u.stack) q), omega (arith, ap (λ u. u.scc) q))
          | inr (k, q) ↦ elim (Bool-cases (t1.marks y).stack) [
            | inl s ↦
                let (r, j) = h.held y (remains y k s) in
                absurd (omega (arith, a s, b, f.own, h.before y, ap (λ u. u.index) (f.kept y j)))
            | inr s ↦
                let (c, l) = IsClosed-kept y (i, s) in
                (c, omega (arith, l, f.state.numbered y (i, s)))
          ]
        ]

    popped-IsState : IsState next popped
    popped-IsState = record {
      before = λ x. elim (fate x) [
        | inl (m, e) ↦ omega (arith, ap (λ u. u.index) e, f.state.before x)
        | inr (m, e) ↦ omega (arith, ap (λ u. u.index) e, f.state.before x)
      ];
      flagged = λ x s. elim (fate x) [
        | inl (m, e) ↦ ground arith
        | inr (m, e) ↦ remains x m (ground arith)
      ];
      held = λ x m.
          let (s, i) = h.held x m in
          let e = untouched x i ∙ f.kept x i in (ground arith, ground arith);
      numbered = λ x c. elim (fate x) [
        | inl (m, e) ↦ omega (arith, ap (λ u. u.scc) e)
        | inr (m, e) ↦ omega (arith, ap (λ u. u.scc) e, f.state.numbered x (IsClosed-before x e c))
      ];
      closed = λ x y c m. elim (fate x) [
        | inl (k, e) ↦
            let (d, l) = gone-IsClosed x y k m in (d, omega (arith, l, ap (λ u. u.scc) e))
        | inr (k, e) ↦
            let (d, l) = f.state.closed x y (IsClosed-before x e c) m in
            let (a, n) = IsClosed-kept y d in (a, omega (arith, l, n, ap (λ u. u.scc) e))
      ];
      linked = λ x y c d q. elim (fate x) [
        | inl (k, e) ↦ elim (fate y) [
          | inl (l, r) ↦ Leads-trans next (gone_back x k) (gone_forth y l)
          | inr (l, r) ↦ absurd (
              omega (
                arith,
                q,
                ap (λ u. u.scc) e,
                ap (λ u. u.scc) r,
                f.state.numbered y (IsClosed-before y r d),
              ))
        ]
        | inr (k, e) ↦ elim (fate y) [
          | inl (l, r) ↦ absurd (
              omega (
                arith,
                q,
                ap (λ u. u.scc) e,
                ap (λ u. u.scc) r,
                f.state.numbered x (IsClosed-before x e c),
              ))
          | inr (l, r) ↦
              f.state.linked x y (IsClosed-before x e c) (IsClosed-before y r d)
                (omega (arith, q, ap (λ u. u.scc) e, ap (λ u. u.scc) r))
        ]
      ];
    }

    v_gone : member v (f.new ++ v ∷ []) ≡ true
    v_gone = ground (arith, member-append v f.new (v ∷ []), ==_iff v v)

    g_index : (x : ℕ) → (g x).index ≡ (t1.marks x).index
    g_index x = elim (fate x) [
      | inl (m, e) ↦ ap (λ u. u.index) e
      | inr (m, e) ↦ ap (λ u. u.index) e
    ]

    popped-Connected : Connected next v t popped
    popped-Connected = record {
      state = popped-IsState;
      new = [];
      split = refl;
      kept = λ x i. untouched x i ∙ f.kept x i;
      grown = λ x i j. omega (arith, g_index x, f.grown x i (omega (arith, g_index x)));
      later = omega (arith, f.later);
      entered = omega (arith, g_index v, f.own, h.before v);
      alone = λ s. ground (arith, p.inside v v_gone);
      fresh = λ x m. cc;
      edges = λ x y m e. cc;
      forth = λ x m. cc;
      back = λ x m. cc;
      low = inl (refl, omega (arith, ap (λ u. u.lowlink) (p.inside v v_gone), b, f.own));
    }

  -- The end of `strongconnect` does not panic.
  pub close-Connected : (t' : Tarjan) × (close v t1 ≡ some t') × Connected next v t t'
  unfolding close
  close-Connected = elim (Bool-cases ((t1.marks v).lowlink == (t1.marks v).index)) [
    | inr n ↦ (t1, rw n refl, left_open n)
    | inl q ↦
        let (g, e, p) = pop_lem v t1.scc t1.marks f.new t.s not_new in
        (
          popped g p (eq_of_test (t1.marks v).lowlink (t1.marks v).index q),
          rw (q, f.split, e) refl,
          popped-Connected g p (eq_of_test (t1.marks v).lowlink (t1.marks v).index q),
        )
  ]
    where
      not_new : member v f.new ≡ false
      not_new = elim (Bool-cases (member v f.new)) [
        | inr n ↦ n
        | inl m ↦ let (a, b) = f.fresh v m in absurd (b refl)
      ]
