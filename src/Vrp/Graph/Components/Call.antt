-- ===== src/Vrp/Graph/Components/Call.antt =====
-- `FindSCCs` of staticcheck/vrp/vrp.go: a call of `strongconnect` for a successor.
use go_tools.Common.{
  append_assoc, ℕ, ◌≤◌, ◌<◌, ◌≡◌, ◌⊎◌, inl, inr, sym, ◌∙◌, ap, subst, true, List, ◌∷◌, ◌++◌, ◌==◌,
  Bool-cases, arith,
}
use go_tools.Common.Search.{member, Leads, here, step}
use go_tools.Vrp.Graph.Components.{Tarjan}
use go_tools.Vrp.Graph.Components.Invariant.{
  member-append, IsClosed, IsAbove, IsState, Anchor, Connected, Follows, Leads-trans, IsLowered,
}
use go_tools.Vrp.Graph.Components.Edge.{eq_of_test, on_stack-low, IsAbove-kept, lower-IsState}

module _ (next : ℕ → List ℕ) where
  -- A successor that has left the stack is passed over.
  pub skip-Follows :
      (v w : ℕ) (todo : List ℕ) (t t1 : Tarjan)
      → Follows next v t (w ∷ todo) t1
      → IsClosed t1 w
      → Follows next v t todo t1
  skip-Follows v w todo t t1 f (i, s) = record {
    state = f.state;
    new = f.new;
    split = f.split;
    kept = f.kept;
    grown = f.grown;
    later = f.later;
    own = f.own;
    under = f.under;
    fresh = f.fresh;
    edges = f.edges;
    forth = f.forth;
    back = f.back;
    low = f.low;
    followed = λ y m. elim (f.followed y m) [
      | inr a ↦ inr a
      | inl a ↦ elim (Bool-cases (y == w)) [
        | inr n ↦ inl (ground arith)
        | inl q ↦
            inr
              (subst (λ u. IsAbove t1 (t1.marks v).lowlink u) (sym (eq_of_test y w q)) (i, λ r. cc))
      ]
    ];
  }

  -- Every entry of the stack leads to `v`.
  pub arrives :
      (v y : ℕ) (todo : List ℕ) (t t1 : Tarjan)
      → ((x : ℕ) → member x t.s ≡ true → Leads next x v)
      → Follows next v t todo t1
      → member y t1.s ≡ true
      → Leads next y v
  arrives v y todo t t1 arrive f m = elim (Bool-cases (member y f.new)) [
    | inl k ↦ f.back y k
    | inr k ↦ elim (Bool-cases (y == v)) [
      | inl q ↦ subst (λ u. Leads next y u) (eq_of_test y v q) here
      | inr q ↦ arrive y (ground (arith, member-append y f.new (v ∷ t.s), f.split))
    ]
  ]

  module _ (v w : ℕ) (todo : List ℕ) (t t1 t2 t3 : Tarjan) (z : (t.marks v).index ≡ 0)
      (h : IsState next t) (arrive : (x : ℕ) → member x t.s ≡ true → Leads next x v)
      (e : member w (next v) ≡ true) (f : Follows next v t (w ∷ todo) t1)
      (n : (t1.marks w).index ≡ 0) (c : Connected next w t1 t2)
      (o : IsLowered v (t2.marks w).lowlink t2 t3) where
    -- What was seen before the call is as it was, but for the lowlink of `v`.
    same : (x : ℕ) → 0 < (t1.marks x).index → (t3.marks x).index ≡ (t1.marks x).index
    same x i = o.index_same x ∙ ap (λ m. m.index) (c.kept x i)

    same_stack : (x : ℕ) → 0 < (t1.marks x).index → (t3.marks x).stack ≡ (t1.marks x).stack
    same_stack x i = o.stack_same x ∙ ap (λ m. m.stack) (c.kept x i)

    own_seen : 0 < (t1.marks v).index
    own_seen = ground (arith, f.own, h.before v)

    still : (x : ℕ) → 0 < (t.marks x).index → 0 < (t1.marks x).index
    still x i = ground (arith, f.kept x i)

    sunk : (t3.marks v).lowlink ≤ (t1.marks v).lowlink
    sunk = ground (arith, o.not_raised, c.kept v own_seen)

    sinks : (y : ℕ) → IsAbove t1 (t1.marks v).lowlink y → IsAbove t3 (t3.marks v).lowlink y
    sinks y (i, a) =
        IsAbove-kept next t1 t3 (t1.marks v).lowlink (t3.marks v).lowlink y (same y i)
          (same_stack y i) sunk (i, a)

    joins : (y : ℕ) → IsAbove t2 (t2.marks w).lowlink y → IsAbove t3 (t3.marks v).lowlink y
    joins y a =
        IsAbove-kept next t2 t3 (t2.marks w).lowlink (t3.marks v).lowlink y (o.index_same y)
          (o.stack_same y) o.at_most a

    parts :
        (x : ℕ)
        → member x (c.new ++ f.new) ≡ true
        → (member x c.new ≡ true) ⊎ (member x f.new ≡ true)
    parts x m = ground (arith, member-append x c.new f.new)

    w_back : (x : ℕ) → member x c.new ≡ true → Leads next w v
    w_back x m = elim c.low [
      | inl (k, l) ↦ absurd (ground arith)
      | inr (y, k, l, d) ↦ Leads-trans next d (arrives v y (w ∷ todo) t t1 arrive f k)
    ]

    call_low : (t.index ≤ (t3.marks v).lowlink) ⊎ Anchor next t v (t3.marks v).lowlink
    call_low = elim o.one_of [
      | inr p ↦
          subst (λ l. (t.index ≤ l) ⊎ Anchor next t v l)
            (sym (p ∙ ap (λ m. m.lowlink) (c.kept v own_seen))) f.low
      | inl p ↦ elim c.low [
        | inl (k, l) ↦ inl (omega (arith, p, f.later))
        | inr (y, k, l, d) ↦
            on_stack-low next v y (w ∷ todo) t t1 (t3.marks v).lowlink h f k (omega (arith, p))
              (step e d)
      ]
    ]

    later_index :
        (x : ℕ) → (t.marks x).index ≡ 0 → 0 < (t3.marks x).index → t.index ≤ (t3.marks x).index
    later_index x j k = elim (Bool-cases ((t1.marks x).index == 0)) [
      | inl q ↦ omega (
        arith,
        c.grown x (eq_of_test (t1.marks x).index 0 q) (omega (arith, o.index_same x, k)),
        f.later,
        o.index_same x,
      )
      | inr q ↦
          let i : 0 < (t1.marks x).index = ground arith in omega (arith, f.grown x j i, same x i)
    ]

    pub call-Follows : Follows next v t todo t3
    call-Follows = record {
      state = lower-IsState next v (t2.marks w).lowlink t2 t3 c.state o;
      new = c.new ++ f.new;
      split =
          o.s_same
          ∙ (c.split ∙ (ap (λ s. c.new ++ s) f.split ∙ sym (append_assoc c.new f.new (v ∷ t.s))));
      kept = λ x j. o.others x (λ q. ground arith) ∙ (c.kept x (still x j) ∙ f.kept x j);
      grown = λ x j k. later_index x j k;
      later = omega (arith, f.later, c.later, o.next_same);
      own = same v own_seen ∙ f.own;
      under = omega (arith, sunk, f.under);
      fresh = λ x m. elim (parts x m) [
        | inr k ↦ f.fresh x k
        | inl k ↦ (ground (arith, still x, c.fresh x k), λ q. ground (arith, own_seen, c.fresh x k))
      ];
      edges = λ x y m k. elim (parts x m) [
        | inl a ↦ joins y (c.edges x y a k)
        | inr b ↦ sinks y (f.edges x y b k)
      ];
      followed = λ y m. elim (f.followed y m) [
        | inr a ↦ inr (sinks y a)
        | inl a ↦ elim (Bool-cases (y == w)) [
          | inr k ↦ inl (ground arith)
          | inl q ↦ inr (
              subst (λ u. IsAbove t3 (t3.marks v).lowlink u) (sym (eq_of_test y w q))
                (joins w (c.entered, c.alone)))
        ]
      ];
      forth = λ x m. elim (parts x m) [ inl a ↦ step e (c.forth x a) | inr b ↦ f.forth x b ];
      back = λ x m. elim (parts x m) [
        | inl a ↦ Leads-trans next (c.back x a) (w_back x a)
        | inr b ↦ f.back x b
      ];
      low = call_low;
    }
