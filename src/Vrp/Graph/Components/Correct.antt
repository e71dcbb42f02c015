-- ===== src/Vrp/Graph/Components/Correct.antt =====
-- `FindSCCs` of staticcheck/vrp/vrp.go against the strongly connected components of the graph.
use go_tools.Common.{ℕ, ◌-◌, ◌≤◌, ◌<◌, ◌≡◌, ◌↔◌, refl, ◌∙◌, true, ◌&&◌, some, List, [], ◌==◌, arith}
use go_tools.Common.Search.{member, Below, Leads, here, step}
use go_tools.Vrp.Graph.Components.{Tarjan, start, component, no_members, find_sccs}
use go_tools.Vrp.Graph.Components.Invariant.{IsClosed, IsState}
use go_tools.Vrp.Graph.Components.Exact.{connect_all_lem}
use go_tools.Vrp.Graph.Components.Members.{nth, length-no_members, nth-no_members, add_members_lem}

start-IsState : (next : ℕ → List ℕ) → IsState next start
start-IsState next = record {
  before = λ x. omega arith;
  flagged = λ x s. cc;
  held = λ x m. cc;
  numbered = λ x (i, s). absurd (omega arith);
  closed = λ x y (i, s) m. absurd (omega arith);
  linked = λ x y (i, s) (j, r) e. absurd (omega arith);
}

-- The answer of `FindSCCs` for the vertices below `k`: a vertex has the number of its component, by
-- which it stands in the lists.
pub record AreComponents (next : ℕ → List ℕ) (k : ℕ) (order : List ℕ) (t : Tarjan)
    (sccs : List (List ℕ)) : Type 0 where
  pub number : ℕ → ℕ
  pub numbers : (x : ℕ) → x < k → component t x ≡ some (number x)
  pub members : (x i : ℕ) → member x (nth sccs i) ≡ (member x order && (number x == i))
  pub together :
      (x y : ℕ) → x < k → y < k → (number x ≡ number y) ↔ (Leads next x y × Leads next y x)
  pub sorted : (x y : ℕ) → x < k → Leads next x y → number x ≤ number y

module _ (next : ℕ → List ℕ) (k : ℕ) (bounded : (x : ℕ) → x < k → Below k (next x)) where
  module _ (t : Tarjan) (h : IsState next t) (empty : t.s ≡ [])
      (all : (x : ℕ) → x < k → 0 < (t.marks x).index) where
    all-IsClosed : (x : ℕ) → x < k → IsClosed t x
    all-IsClosed x l = (all x l, ground (arith, h.flagged x))

    abbrev number : ℕ → ℕ
    number x = t.scc - (t.marks x).scc - 1

    component-number : (x : ℕ) → x < k → component t x ≡ some (number x)
    unfolding component
    component-number x l = ground (arith, h.numbered x (all-IsClosed x l))

    falls : {x y : ℕ} → x < k → Leads next x y → (y < k) × ((t.marks y).scc ≤ (t.marks x).scc)
    falls l here = (l, omega arith)
    falls l (step {x = x} {y = y} e m) =
        let (c, n) = h.closed x y (all-IsClosed x l) e in
        let (b, i) = falls (bounded x l y e) m in (b, omega arith)

    number-sorted : (x y : ℕ) → x < k → Leads next x y → number x ≤ number y
    number-sorted x y l m = let (b, i) = falls l m in omega arith

    number-together :
        (x y : ℕ) → x < k → y < k → (number x ≡ number y) ↔ (Leads next x y × Leads next y x)
    number-together x y l m =
        let a = all-IsClosed x l in
        let b = all-IsClosed y m in
        let r = h.numbered x a in
        let s = h.numbered y b in
        (
          λ e. (h.linked x y a b (omega arith), h.linked y x b a (omega arith)),
          λ (p, q). omega (arith, number-sorted x y l p, number-sorted y x m q),
        )

  -- For a graph whose vertices are below `k`, and orders of them, the first of which leaves none out,
  -- `FindSCCs` ends without a panic. Each list of `SCCs` holds the vertices of the second order that
  -- have its place as their number; two vertices have the same number exactly if each leads to the
  -- other, and a vertex has no greater number than those it leads to.
  pub find_sccs-AreComponents :
      (fuel : ℕ) (order order' : List ℕ)
      → k < fuel
      → Below k order
      → Below k order'
      → ((x : ℕ) → x < k → member x order ≡ true)
      → (t : Tarjan) × (sccs : List (List ℕ)) × (find_sccs next fuel order order' ≡ some (t, sccs))
        × AreComponents next k order' t sccs
  unfolding find_sccs
  find_sccs-AreComponents fuel order order' u b b' whole =
      let (t, r, h, e, keeps, seen) =
        connect_all_lem next k bounded fuel order start u b (start-IsState next) refl in
      let all : (x : ℕ) → x < k → 0 < (t.marks x).index = λ x l. seen x (whole x l) in
      let (sccs, q, m) = add_members_lem t (number t h e all) order' (no_members t.scc) (λ x n. (
        component-number t h e all x (b' x n),
        omega (arith, length-no_members t.scc, h.numbered x (all-IsClosed t h e all x (b' x n))),
      )) in
      (
        t,
        sccs,
        rw (r, q) refl,
        record {
          number = number t h e all;
          numbers = component-number t h e all;
          members = λ x i. m x i ∙ ground (arith, nth-no_members t.scc i);
          together = number-together t h e all;
          sorted = number-sorted t h e all;
        },
      )
