-- ===== src/Staticcheck/Constants/Exact.antt =====
-- About what `consts` (staticcheck/lint.go) answers.
use go_tools.Common.{
  ◌≡◌, ◌↔◌, inl, inr, sym, subst, ◌∙◌, Option, none, some, Bool, true, List, [], ◌∷◌, ℕ, ◌+◌, ◌*◌,
  ◌≤◌, ◌<◌, arith, ==_iff, In,
}
use go_tools.Common.Search.{member, Leads, here, step, Below, unseen, unseen-le}
use go_tools.Staticcheck.Constants.{
  Kind, phi, const, convert, other, consts, sources, Flows, Escapes,
}
use go_tools.Staticcheck.Constants.Covered.{Covered, seen, held, through, IsClosed, Meets}
use go_tools.Staticcheck.Constants.Calls.{consts-Meets}

module _ {V : Type 0} (kind : ℕ → Kind V) (same : Option V → Option V → Bool)
    (same_eq : (x y : Option V) → same x y ≡ true → x ≡ y) (k : ℕ)
    (sources-Below : (x : ℕ) → x < k → Below k (sources (kind x)))
    (converts_back : (x y : ℕ) → kind x ≡ convert y → y < x) where
  -- All that comes to a covered value is covered.
  Covered-Leads :
      (out : List (Option V)) (visited : List ℕ)
      → ((x : ℕ) → member x visited ≡ true → IsClosed kind out visited x)
      → {x y : ℕ} → Leads (λ z. sources (kind z)) x y
      → Covered kind out visited x
      → Covered kind out visited y
  Covered-Leads out visited h here c = c
  Covered-Leads out visited h (step {x = x} {y = y} m l) (seen n) =
      let c = h x n in
      Covered-Leads out visited h l (c.all y (subst (λ s. member y (sources s) ≡ true) c.is_phi m))
  Covered-Leads out visited h (step {x = x} {y = y} m l) (held e n) =
      let none_left : member y [] ≡ true = subst (λ s. member y (sources s) ≡ true) e m in cc
  Covered-Leads out visited h (step {x = x} {y = y} m l) (through {y = z} e c) =
      let n : member y (z ∷ []) ≡ true = subst (λ s. member y (sources s) ≡ true) e m in
      let q : y ≡ z = ground (arith, ==_iff y z) in
      Covered-Leads out visited h l (subst (λ t. Covered kind out visited t) (sym q) c)

  not-Covered-other :
      (out : List (Option V)) (visited : List ℕ)
      → ((x : ℕ) → member x visited ≡ true → IsClosed kind out visited x)
      → {x : ℕ} → Covered kind out visited x
      → kind x ≡ other
      → ⊥
  not-Covered-other out visited h (seen m) e =
      let c = h _ m in let q : phi c.vals ≡ other = sym c.is_phi ∙ e in cc
  not-Covered-other out visited h (held q m) e = cc
  not-Covered-other out visited h (through q c) e = cc

  Covered-const :
      (out : List (Option V)) (visited : List ℕ) (c : Option V)
      → ((x : ℕ) → member x visited ≡ true → IsClosed kind out visited x)
      → {x : ℕ} → Covered kind out visited x
      → kind x ≡ const c
      → In c out
  Covered-const out visited c h (seen m) e =
      let d = h _ m in let q : phi d.vals ≡ const c = sym d.is_phi ∙ e in cc
  Covered-const out visited c h (held {c = d} q m) e =
      let r : d ≡ c = cc in subst (λ z. In z out) r m
  Covered-const out visited c h (through q d) e = cc

  -- What `consts` answers for a value, called from outside: not ok, or the constants.
  abbrev pub IsExact : ℕ → Option (List (Option V) × List ℕ) → Type 0
  IsExact v none = Escapes kind v
  IsExact v (some (out, visited)) =
      (Escapes kind v → ⊥) × ((c : Option V) → In c out ↔ Flows kind c v)

  IsExact-of_Meets :
      (v : ℕ) (a : Option (List (Option V) × List ℕ)) → Meets kind k (v ∷ []) [] [] a → IsExact v a
  IsExact-of_Meets v none (t, m, e) =
      let q : t ≡ v = ground (arith, ==_iff t v) in subst (λ x. Escapes kind x) q e
  IsExact-of_Meets v (some (out, visited)) g =
      let h : (x : ℕ) → member x visited ≡ true → IsClosed kind out visited x =
        λ x m. elim (g.closed x m) [ inl n ↦ cc | inr c ↦ c ] in
      let c = g.covered v (ground (arith, ==_iff v v)) in
      (
        λ (y, l, e). not-Covered-other out visited h (Covered-Leads out visited h l c) e,
        λ d. (
          λ m. elim (g.drawn d m) [
            | inl n ↦ absurd n
            | inr (t, n, f) ↦
                let q : t ≡ v = ground (arith, ==_iff t v) in subst (λ x. Flows kind d x) q f
          ],
          λ (y, l, e). Covered-const out visited d h (Covered-Leads out visited h l c) e,
        ),
      )

  -- Where values and what they may be are below `k`, and a conversion is of a smaller value, the calls of
  -- `consts` for a value are at most `k * k + k` deep; it answers that it is not ok exactly if a value that is
  -- no phi, constant or conversion comes to the value over phis and conversions, and else exactly the
  -- constants that do.
  pub consts-IsExact :
      (fuel v : ℕ)
      → v < k
      → k * k + k ≤ fuel
      → (a : Option (List (Option V) × List ℕ)) × (consts same kind fuel v [] [] ≡ some a)
        × IsExact v a
  consts-IsExact fuel v lt h =
      let least = unseen-le k [] in
      let fits : unseen k [] * k ≤ k * k = grind arith in
      let (a, e, m) =
        consts-Meets kind same same_eq k sources-Below converts_back fuel v [] [] lt (omega arith)
          (λ x n. cc) in
      (a, e, IsExact-of_Meets v a m)
