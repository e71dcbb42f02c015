-- ===== src/Vrp/Graph/Components/Exact.antt =====
-- `FindSCCs` of staticcheck/vrp/vrp.go: a call of `strongconnect` with enough fuel, and the loop that
-- calls it.
use go_tools.Common.{
  ℕ, zero, suc, ◌≤◌, ◌<◌, ◌≡◌, inl, inr, refl, sym, ◌∙◌, ap, subst, true, false, Option, some, List,
  [], ◌∷◌, ◌++◌, if◌then◌else◌, ◌==◌, ==_iff, Bool-cases, arith,
}
use go_tools.Common.Search.{member, Below, Leads, here, step}
use go_tools.Vrp.Graph.Components.{
  Tarjan, enter, lower, follow, follow_all, strongconnect, connect_all,
}
use go_tools.Vrp.Graph.Components.Invariant.{
  IsState, Connected, Follows, lower-IsLowered, unmarked, Leads-trans,
}
use go_tools.Vrp.Graph.Components.Edge.{eq_of_test, enter-Follows, lower-Follows}
use go_tools.Vrp.Graph.Components.Call.{skip-Follows, arrives, call-Follows}
use go_tools.Vrp.Graph.Components.Pop.{close-Connected}

abbrev pub Keeps : Tarjan → Tarjan → Type 0
Keeps t t' = (x : ℕ) → 0 < (t.marks x).index → 0 < (t'.marks x).index

unmarked-le : (k : ℕ) (t : Tarjan) → unmarked k t ≤ k
unfolding unmarked
unmarked-le zero t = omega arith
unmarked-le (suc k) t = ground (arith, unmarked-le k t)

unmarked_mono : (k : ℕ) (t t' : Tarjan) → Keeps t t' → unmarked k t' ≤ unmarked k t
unfolding unmarked
unmarked_mono zero t t' h = omega arith
unmarked_mono (suc k) t t' h = ground (arith, h k, unmarked_mono k t t' h)

unmarked-enter :
    (k v : ℕ) (t : Tarjan)
    → v < k
    → (t.marks v).index ≡ 0
    → 0 < t.index
    → unmarked k (enter v t) < unmarked k t
unfolding unmarked enter
unmarked-enter zero v t h z s = absurd (omega arith)
unmarked-enter (suc k) v t h z s = elim (Bool-cases (v == k)) [
  | inl q ↦
      ground (arith, ==_iff v k, unmarked_mono k t (enter v t) (λ x i. ground (arith, ==_iff v x)))
  | inr q ↦ ground (arith, ==_iff v k, unmarked-enter k v t)
]

module _ (call : ℕ → Tarjan → Option Tarjan) (v w : ℕ) (t : Tarjan) where
  follow_new :
      (t' : Tarjan)
      → ((t.marks w).index == 0) ≡ true
      → call w t ≡ some t'
      → follow call v w t ≡ some (lower v (t'.marks w).lowlink t')
  unfolding follow
  follow_new t' n e = ground arith

  follow_seen :
      ((t.marks w).index == 0) ≡ false
      → follow call v w t ≡ some (if (t.marks w).stack then lower v (t.marks w).index t else t)
  unfolding follow
  follow_seen n = ground arith

module _ (next : ℕ → List ℕ) (k : ℕ) (bounded : (x : ℕ) → x < k → Below k (next x)) where
  -- What a call with so much fuel does.
  abbrev Works : ℕ → (ℕ → Tarjan → Option Tarjan) → Type 0
  Works fuel call =
      (v : ℕ) (t : Tarjan)
      → unmarked k t < fuel
      → v < k
      → (t.marks v).index ≡ 0
      → IsState next t
      → ((x : ℕ) → member x t.s ≡ true → Leads next x v)
      → (t' : Tarjan) × (call v t ≡ some t') × Connected next v t t'

  module _ (fuel : ℕ) (call : ℕ → Tarjan → Option Tarjan) (works : Works fuel call) (v : ℕ)
      (t : Tarjan) (in_range : v < k) (z : (t.marks v).index ≡ 0) (h : IsState next t)
      (arrive : (x : ℕ) → member x t.s ≡ true → Leads next x v) where
    follow-Follows :
        (w : ℕ) (todo : List ℕ) (t1 : Tarjan)
        → unmarked k t1 < fuel
        → member w (next v) ≡ true
        → Follows next v t (w ∷ todo) t1
        → (t3 : Tarjan) × (follow call v w t1 ≡ some t3) × Follows next v t todo t3 × Keeps t1 t3
    follow-Follows w todo t1 u e f = elim (Bool-cases ((t1.marks w).index == 0)) [
      | inl n ↦
          let zero_w = eq_of_test (t1.marks w).index 0 n in
          let (t2, r, c) =
            works w t1 u (bounded v in_range w e) zero_w f.state (λ x m.
              Leads-trans next (arrives next v x (w ∷ todo) t t1 arrive f m) (step e here)) in
          let o = lower-IsLowered v (t2.marks w).lowlink t2 in
          (
            lower v (t2.marks w).lowlink t2,
            follow_new call v w t1 t2 n r,
            call-Follows next v w todo t t1 t2 (lower v (t2.marks w).lowlink t2) z h arrive e f
                zero_w c o,
            λ x i. omega (arith, i, o.index_same x, ap (λ m. m.index) (c.kept x i)),
          )
      | inr n ↦
          let seen : 0 < (t1.marks w).index = ground arith in
          elim (Bool-cases (t1.marks w).stack) [
            | inl s ↦
                let o = lower-IsLowered v (t1.marks w).index t1 in
                (
                  lower v (t1.marks w).index t1,
                  follow_seen call v w t1 n ∙ ground arith,
                  lower-Follows next v w todo t t1 (lower v (t1.marks w).index t1) z h e f s seen o,
                  λ x i. omega (arith, i, o.index_same x),
                )
            | inr s ↦ (
              t1,
              follow_seen call v w t1 n ∙ ground arith,
              skip-Follows next v w todo t t1 f (seen, s),
              λ x i. i,
            )
          ]
    ]

    follow_all-Follows :
        (todo : List ℕ) (t1 : Tarjan)
        → unmarked k t1 < fuel
        → ((w : ℕ) → member w todo ≡ true → member w (next v) ≡ true)
        → Follows next v t todo t1
        → (t2 : Tarjan) × (follow_all call v todo t1 ≡ some t2) × Follows next v t [] t2
    unfolding follow_all
    follow_all-Follows [] t1 u e f = (t1, refl, f)
    follow_all-Follows (w ∷ todo) t1 u e f =
        let (t3, r, g, keeps) = follow-Follows w todo t1 u (e w (ground (arith, ==_iff w w))) f in
        let (t2, q, d) =
          follow_all-Follows todo t3 (omega (arith, u, unmarked_mono k t1 t3 keeps))
            (λ x m. e x (ground arith)) g in
        (t2, rw r q, d)

  strongconnect-Connected : (fuel : ℕ) → Works fuel (λ v t. strongconnect next fuel v t)
  unfolding strongconnect
  strongconnect-Connected zero v t u b z h arrive = absurd (omega arith)
  strongconnect-Connected (suc fuel) v t u b z h arrive =
      let (t1, r, f) =
        follow_all-Follows fuel (λ w s. strongconnect next fuel w s) (strongconnect-Connected fuel)
          v t b z h arrive (next v) (enter v t)
          (omega (arith, u, unmarked-enter k v t b z (omega (arith, h.before v)))) (λ w m. m)
          (enter-Follows next v t z h) in
      let (t2, q, c) = close-Connected next v t t1 z h f in (t2, rw r q, c)

  -- Between the calls at the top, the stack is empty.
  pub connect_all_lem :
      (fuel : ℕ) (order : List ℕ) (t : Tarjan)
      → k < fuel
      → Below k order
      → IsState next t
      → t.s ≡ []
      → (t' : Tarjan) × (connect_all next fuel order t ≡ some t')
        × IsState next t'
        × (t'.s ≡ [])
        × Keeps t t'
        × ((x : ℕ) → member x order ≡ true → 0 < (t'.marks x).index)
  unfolding connect_all
  connect_all_lem fuel [] t u b h e = (t, refl, h, e, λ x i. i, λ x m. cc)
  connect_all_lem fuel (v ∷ order) t u b h e = elim (Bool-cases ((t.marks v).index == 0)) [
    | inl n ↦
        let (t1, r, c) =
          strongconnect-Connected fuel v t (omega (arith, u, unmarked-le k t))
            (b v (ground (arith, ==_iff v v))) (eq_of_test (t.marks v).index 0 n) h
            (λ x m. ground arith) in
        let empty : t1.s ≡ [] = elim c.low [
          | inl (q, l) ↦ c.split ∙ (ap (λ s. s ++ t.s) q ∙ e)
          | inr (y, m, l, d) ↦ absurd (ground arith)
        ] in
        let (t2, q, h', e', keeps, all) =
          connect_all_lem fuel order t1 u (λ x m. b x (ground arith)) c.state empty in
        (
          t2,
          rw (n, r) q,
          h',
          e',
          λ x i. keeps x (ground (arith, c.kept x i)),
          λ x m. elim (Bool-cases (x == v)) [
            | inl s ↦
                keeps x (subst (λ y. 0 < (t1.marks y).index) (sym (eq_of_test x v s)) c.entered)
            | inr s ↦ all x (ground arith)
          ],
        )
    | inr n ↦
        let (t2, q, h', e', keeps, all) =
          connect_all_lem fuel order t u (λ x m. b x (ground arith)) h e in
        (
          t2,
          rw n q,
          h',
          e',
          keeps,
          λ x m. elim (Bool-cases (x == v)) [
            | inl s ↦
                keeps x (subst (λ y. 0 < (t.marks y).index) (sym (eq_of_test x v s)) (ground arith))
            | inr s ↦ all x (ground arith)
          ],
        )
  ]
