-- ===== src/Staticcheck/Constants/Calls.antt =====
-- The calls of `consts` (staticcheck/lint.go) on a phi, a constant and a conversion.
use go_tools.Common.{
  ◌≡◌, inl, inr, refl, ap, ◌∙◌, Option, none, some, Bool, true, List, [], ◌∷◌, ◌++◌, ℕ, zero, suc,
  ◌+◌, ◌*◌, ◌≤◌, ◌<◌, arith, ==_iff, Bool-cases,
}
use native.Mathlib.Nat.{suc-mul}
use go_tools.Common.Search.{member, member-add, here, step, Below, unseen, unseen_mono, unseen-add}
use go_tools.Staticcheck.Constants.{
  Kind, phi, const, convert, other, Answer, uniq, answered, each_operand, switch, consts, sources,
}
use go_tools.Staticcheck.Constants.Uniq.{In-uniq, In-add, In-add_self, In_of_add}
use go_tools.Staticcheck.Constants.Covered.{
  seen, held, through, Covered-mono, Collects, Meets, Meets-nil, Meets-cons, Collects-phi,
}

room : (a b k : ℕ) → suc a ≡ b → a * k + k ≡ b * k
room a b k e = rw (← e) (omega (arith, suc-mul a k))

module _ {V : Type 0} (kind : ℕ → Kind V) (same : Option V → Option V → Bool)
    (same_eq : (x y : Option V) → same x y ≡ true → x ≡ y) (k : ℕ)
    (sources-Below : (x : ℕ) → x < k → Below k (sources (kind x)))
    (converts_back : (x y : ℕ) → kind x ≡ convert y → y < x) where
  answered-Meets :
      (vals : List ℕ) (out : List (Option V)) (visited : List ℕ)
      (a : Option (List (Option V) × List ℕ))
      → Meets kind k vals out visited a
      → Meets kind k vals out visited (answered same a)
  unfolding answered
  answered-Meets vals out visited none m = m
  answered-Meets vals out visited (some (out', visited')) g = record {
    kept = λ c m. (In-uniq same same_eq c out').0 (g.kept c m);
    phis = g.phis;
    drawn = λ c m. g.drawn c ((In-uniq same same_eq c out').1 m);
    closed = λ x m. elim (g.closed x m) [
      | inl o ↦ inl o
      | inr c ↦ inr (record {
        vals = c.vals;
        is_phi = c.is_phi;
        all = λ y n.
            Covered-mono kind out' (uniq same out') visited' visited'
              (λ d o. (In-uniq same same_eq d out').0 o) (λ z o. o) (c.all y n);
      })
    ];
    covered = λ t n.
        Covered-mono kind out' (uniq same out') visited' visited'
          (λ d o. (In-uniq same same_eq d out').0 o) (λ z o. o) (g.covered t n);
    below = g.below;
  }

  -- What a call answers, where the fuel allows for its depth.
  abbrev pub Works : (ℕ → List (Option V) → List ℕ → Answer V) → ℕ → Type 0
  Works call fuel =
      (v : ℕ) (out : List (Option V)) (visited : List ℕ)
      → v < k
      → unseen k visited * k + v < fuel
      → Below k visited
      → (a : Option (List (Option V) × List ℕ)) × (call v out visited ≡ some a)
        × Meets kind k (v ∷ []) out visited a

  fewer :
      (visited visited' : List ℕ)
      → ((x : ℕ) → member x visited ≡ true → member x visited' ≡ true)
      → unseen k visited' * k ≤ unseen k visited * k
  fewer visited visited' h = let e = unseen_mono k visited visited' h in grind arith

  -- What the loop over the operands answers behind an operand.
  abbrev Loops :
      (ℕ → List (Option V) → List ℕ → Answer V)
      → List ℕ
      → List ℕ
      → List (Option V)
      → List ℕ
      → Option (List (Option V) × List ℕ)
      → Type 0
  Loops call vals from out visited a =
      (a' : Option (List (Option V) × List ℕ)) × ((elim a [
        | none ↦ some none
        | some (out', visited') ↦ each_operand same call vals out' visited'
      ])
        ≡ some a')
      × Meets kind k from out visited a'

  each_operand-rest :
      (call : ℕ → List (Option V) → List ℕ → Answer V) (v : ℕ) (vals : List ℕ)
      (out : List (Option V)) (visited : List ℕ) (a : Option (List (Option V) × List ℕ))
      → Meets kind k (v ∷ []) out visited a
      → ((out1 : List (Option V)) (visited1 : List ℕ)
          → Collects kind k (v ∷ []) out visited out1 visited1
          → Loops call vals vals out1 visited1 (some (out1, visited1)))
      → Loops call vals (v ∷ vals) out visited a
  each_operand-rest call v vals out visited none (t, m, e) next = (none, refl, (t, ground arith, e))
  each_operand-rest call v vals out visited (some (out1, visited1)) f next =
      let (a, e, m) = next out1 visited1 f in
      (a, e, Meets-cons kind k v vals out out1 visited visited1 a f m)

  each_operand-Meets :
      (call : ℕ → List (Option V) → List ℕ → Answer V) (fuel : ℕ) (vals : List ℕ)
      (out : List (Option V)) (visited : List ℕ)
      → Works call fuel
      → Below k vals
      → unseen k visited * k + k ≤ fuel
      → Below k visited
      → (a : Option (List (Option V) × List ℕ)) × (each_operand same call vals out visited ≡ some a)
        × Meets kind k vals out visited a
  unfolding each_operand
  each_operand-Meets call fuel [] out visited w b h bv =
      (some (out, visited), refl, Meets-nil kind k out visited bv)
  each_operand-Meets call fuel (v ∷ vals) out visited w b h bv =
      let lt = b v (ground (arith, ==_iff v v)) in
      let (a, e, m) = w v out visited lt (omega arith) bv in
      rw e (
        each_operand-rest call v vals out visited a m λ out1 visited1 f.
          each_operand-Meets call fuel vals out1 visited1 w (λ x n. b x (ground arith))
            (omega (arith, fewer visited visited1 f.phis)) f.below)

  Meets-phi :
      (v : ℕ) (vals : List ℕ) (out : List (Option V)) (visited : List ℕ)
      (a : Option (List (Option V) × List ℕ))
      → kind v ≡ phi vals
      → Meets kind k vals out (visited ++ v ∷ []) a
      → Meets kind k (v ∷ []) out visited a
  Meets-phi v vals out visited none e (t, n, (y, l, q)) =
      (v, ground (arith, ==_iff v v), (y, step (rw (e, sources) n) l, q))
  Meets-phi v vals out visited (some (out', visited')) e g =
      Collects-phi kind k v vals out out' visited visited' e g

  Meets-convert :
      (v x : ℕ) (out : List (Option V)) (visited : List ℕ) (a : Option (List (Option V) × List ℕ))
      → kind v ≡ convert x
      → Meets kind k (x ∷ []) out visited a
      → Meets kind k (v ∷ []) out visited a
  Meets-convert v x out visited none e (t, n, (y, l, q)) =
      (v, ground (arith, ==_iff v v), (y, step (rw (e, sources) n) l, q))
  Meets-convert v x out visited (some (out', visited')) e g = record {
    kept = g.kept;
    phis = g.phis;
    drawn = λ c m. elim (g.drawn c m) [
      | inl o ↦ inl o
      | inr (t, n, (y, l, q)) ↦
          inr (v, ground (arith, ==_iff v v), (y, step (rw (e, sources) n) l, q))
    ];
    closed = g.closed;
    covered = λ t m.
        let q : t ≡ v = ground (arith, ==_iff t v) in
        through (ap kind q ∙ e) (g.covered x (ground (arith, ==_iff x x)));
    below = g.below;
  }

  Collects-const :
      (v : ℕ) (c : Option V) (out : List (Option V)) (visited : List ℕ)
      → kind v ≡ const c
      → Below k visited
      → Collects kind k (v ∷ []) out visited (out ++ c ∷ []) visited
  Collects-const v c out visited e b = record {
    kept = λ d m. In-add d c out m;
    phis = λ x m. m;
    drawn = λ d m. elim (In_of_add d c out m) [
      | inl o ↦ inl o
      | inr q ↦ inr (v, ground (arith, ==_iff v v), (v, here, e ∙ ap const q))
    ];
    closed = λ x m. inl m;
    covered = λ t m.
        let q : t ≡ v = ground (arith, ==_iff t v) in held (ap kind q ∙ e) (In-add_self c out);
    below = b;
  }

  Collects-seen :
      (v : ℕ) (out : List (Option V)) (visited : List ℕ)
      → member v visited ≡ true
      → Below k visited
      → Collects kind k (v ∷ []) out visited out visited
  Collects-seen v out visited q b = record {
    kept = λ c m. m;
    phis = λ x m. m;
    drawn = λ c m. inl m;
    closed = λ x m. inl m;
    covered = λ t m. seen (ground (arith, ==_iff t v));
    below = b;
  }

  switch-Meets :
      (call : ℕ → List (Option V) → List ℕ → Answer V) (fuel v : ℕ) (kv : Kind V)
      (out : List (Option V)) (visited : List ℕ)
      → kind v ≡ kv
      → Works call fuel
      → v < k
      → unseen k visited * k + v < suc fuel
      → Below k visited
      → (a : Option (List (Option V) × List ℕ)) × (switch same call kv v out visited ≡ some a)
        × Meets kind k (v ∷ []) out visited a
  unfolding switch
  switch-Meets call fuel v (const c) out visited e w lt h b = (
    answered same (some (out ++ c ∷ [], visited)),
    refl,
    answered-Meets (v ∷ []) out visited (some (out ++ c ∷ [], visited))
        (Collects-const v c out visited e b),
  )
  switch-Meets call fuel v other out visited e w lt h b =
      (none, refl, (v, ground (arith, ==_iff v v), (v, here, e)))
  switch-Meets call fuel v (convert x) out visited e w lt h b =
      let (a, q, m) =
        w x out visited (omega (arith, converts_back v x e)) (omega (arith, converts_back v x e))
          b in
      (
        answered same a,
        rw q refl,
        answered-Meets (v ∷ []) out visited a (Meets-convert v x out visited a e m),
      )
  switch-Meets call fuel v (phi vals) out visited e w lt h b =
      elim (Bool-cases (member v visited)) [
        | inl q ↦ (
          answered same (some (out, visited)),
          rw q refl,
          answered-Meets (v ∷ []) out visited (some (out, visited))
              (Collects-seen v out visited q b),
        )
        | inr q ↦
            let (a, f, m) =
              each_operand-Meets call fuel vals out (visited ++ v ∷ []) w
                (λ x n. sources-Below v lt x (rw (e, sources) n))
                (omega (
                  arith,
                  room (unseen k (visited ++ v ∷ [])) (unseen k visited) k
                      (unseen-add k v visited lt q),
                ))
                (λ x n. ground (arith, b x, member-add x v visited, ==_iff x v)) in
            (
              answered same a,
              rw (q, f) refl,
              answered-Meets (v ∷ []) out visited a (Meets-phi v vals out visited a e m),
            )
      ]

  pub consts-Meets : (fuel : ℕ) → Works (consts same kind fuel) fuel
  unfolding consts
  consts-Meets zero v out visited lt h b = absurd (omega arith)
  consts-Meets (suc fuel) v out visited lt h b =
      switch-Meets (consts same kind fuel) fuel v (kind v) out visited refl (consts-Meets fuel) lt h
        b
