-- ===== src/Common/Search.antt =====
-- Depth-first traversal of a graph whose vertices are numbers, and what it visits.
use Prim.Native.Nat.{ℕ, zero, suc, ◌+◌, ◌≤◌, ◌<◌}
use mathlib.Core.Path.{◌≡◌, refl, sym, subst}
use mathlib.Core.Logic.{◌⊎◌, inl, inr, ◌↔◌}
use mathlib.Core.Bool.{Bool, true, false, ◌||◌}
use mathlib.Core.Option.{Option, none, some}
use mathlib.Core.List.{List, [], ◌∷◌, ◌++◌}
use native.Mathlib.Omega.{arith}
use go_tools.Common.Tests.{◌==◌, ==_iff, if◌then◌else◌, Bool-cases}
use go_tools.Common.Panics.{◌>>=◌}

abbrev pub member : ℕ → List ℕ → Bool
member x [] = false
member x (y ∷ ys) = (x == y) || member x ys

pub member-add : (x n : ℕ) (s : List ℕ) → member x (s ++ n ∷ []) ≡ (member x s || (x == n))
member-add x n [] = ground arith
member-add x n (y ∷ s) = ground (arith, member-add x n s)

-- How many numbers below `k` are not in `s`.
unfoldable pub unseen : ℕ → List ℕ → ℕ
unseen zero s = 0
unseen (suc k) s = (if member k s then 0 else 1) + unseen k s

pub unseen-le : (k : ℕ) (s : List ℕ) → unseen k s ≤ k
unfolding unseen
unseen-le zero s = omega arith
unseen-le (suc k) s = ground (arith, unseen-le k s)

pub unseen_mono :
    (k : ℕ) (s t : List ℕ)
    → ((x : ℕ) → member x s ≡ true → member x t ≡ true)
    → unseen k t ≤ unseen k s
unfolding unseen
unseen_mono zero s t h = omega arith
unseen_mono (suc k) s t h = ground (arith, h k, unseen_mono k s t h)

unseen-outside : (k n : ℕ) (s : List ℕ) → k ≤ n → unseen k (s ++ n ∷ []) ≡ unseen k s
unfolding unseen
unseen-outside zero n s h = refl
unseen-outside (suc k) n s h = ground (arith, member-add k n s, unseen-outside k n s)

pub unseen-add :
    (k n : ℕ) (s : List ℕ) → n < k → member n s ≡ false → suc (unseen k (s ++ n ∷ [])) ≡ unseen k s
unfolding unseen
unseen-add zero n s h m = absurd (omega arith)
unseen-add (suc k) n s h m =
    ground (arith, member-add k n s, unseen-outside k n s, unseen-add k n s, ==_iff k n)

abbrev pub Below : ℕ → List ℕ → Type 0
Below k s = (x : ℕ) → member x s ≡ true → x < k

module _ (next : ℕ → List ℕ) where
  -- Visits what `todo` leads to, each vertex once, in the order of the first visits. The fuel bounds
  -- the depth; `none` means that it ran out.
  unfoldable pub visit : ℕ → List ℕ → List ℕ → Option (List ℕ)
  visit fuel [] seen = some seen
  visit zero (n ∷ todo) seen = none
  visit (suc fuel) (n ∷ todo) seen = do
    seen' ← elim (member n seen) [ true ↦ some seen | false ↦ visit fuel (next n) (seen ++ n ∷ []) ]
    visit (suc fuel) todo seen'

  pub data Leads : ℕ → ℕ → Type 0 where
    here : {x : ℕ} → Leads x x
    step : {x y z : ℕ} → member y (next x) ≡ true → Leads y z → Leads x z

  -- What a traversal of `todo` adds to `seen`.
  pub record Visited (k : ℕ) (todo seen r : List ℕ) : Type 0 where
    pub kept : (x : ℕ) → member x seen ≡ true → member x r ≡ true
    pub covered : (x : ℕ) → member x todo ≡ true → member x r ≡ true
    pub closed :
        (x : ℕ)
        → member x r ≡ true
        → (member x seen ≡ true) ⊎ ((y : ℕ) → member y (next x) ≡ true → member y r ≡ true)
    pub sound :
        (x : ℕ)
        → member x r ≡ true
        → (member x seen ≡ true) ⊎ ((t : ℕ) × (member t todo ≡ true) × Leads t x)
    pub below : Below k r

  module _ (k : ℕ) (bounded : (x : ℕ) → x < k → Below k (next x)) where
    Visited-nil : (seen : List ℕ) → Below k seen → Visited k [] seen seen
    Visited-nil seen b = record {
      kept = λ x m. m;
      covered = λ x m. cc;
      closed = λ x m. inl m;
      sound = λ x m. inl m;
      below = b;
    }

    Visited-skip :
        (n : ℕ) (todo seen r : List ℕ)
        → member n seen ≡ true
        → Visited k todo seen r
        → Visited k (n ∷ todo) seen r
    Visited-skip n todo seen r m v = record {
      kept = v.kept;
      covered = λ x h. ground (arith, v.covered x, v.kept n, ==_iff x n);
      closed = v.closed;
      sound =
          λ x h. elim (v.sound x h) [ inl s ↦ inl s | inr (t, tm, l) ↦ inr (t, ground arith, l) ];
      below = v.below;
    }

    Visited-enter :
        (n : ℕ) (todo seen inner r : List ℕ)
        → Visited k (next n) (seen ++ n ∷ []) inner
        → Visited k todo inner r
        → Visited k (n ∷ todo) seen r
    Visited-enter n todo seen inner r v w = record {
      kept = λ x h. w.kept x (v.kept x (rw (member-add x n seen, h) refl));
      covered = λ x h.
          ground
            (arith, w.covered x, w.kept n, v.kept n, member-add n n seen, ==_iff x n, ==_iff n n);
      closed = λ x h. elim (w.closed x h) [
        | inr c ↦ inr c
        | inl i ↦ elim (v.closed x i) [
          | inr c ↦ inr (λ y m. w.kept y (c y m))
          | inl s ↦ elim (Bool-cases (member x seen)) [
            | inl old ↦ inl old
            | inr new ↦ inr (λ y m.
                w.kept y (v.covered y (subst (λ z. member y (next z) ≡ true) (is_new x s new) m)))
          ]
        ]
      ];
      sound = λ x h. elim (w.sound x h) [
        | inr (t, tm, l) ↦ inr (t, ground arith, l)
        | inl i ↦ elim (v.sound x i) [
          | inr (t, tm, l) ↦ inr (n, ground (arith, ==_iff n n), step tm l)
          | inl s ↦ elim (Bool-cases (member x seen)) [
            | inl old ↦ inl old
            | inr new ↦
                inr (
                  n,
                  ground (arith, ==_iff n n),
                  subst (λ z. Leads n z) (sym (is_new x s new)) here,
                )
          ]
        ]
      ];
      below = w.below;
    }
      where
        is_new : (x : ℕ) → member x (seen ++ n ∷ []) ≡ true → member x seen ≡ false → x ≡ n
        is_new x s new = ground (arith, member-add x n seen, ==_iff x n)

    -- With more fuel than there are vertices left to see, the traversal ends.
    pub visit_visits :
        (fuel : ℕ) (todo seen : List ℕ)
        → unseen k seen < fuel
        → Below k todo
        → Below k seen
        → (r : List ℕ) × (visit fuel todo seen ≡ some r) × Visited k todo seen r
    unfolding visit
    visit_visits zero todo seen h t s = absurd (omega arith)
    visit_visits (suc fuel) [] seen h t s = (seen, refl, Visited-nil seen s)
    visit_visits (suc fuel) (n ∷ todo) seen h t s = elim (Bool-cases (member n seen)) [
      | inl old ↦
          let (r, e, v) = visit_visits (suc fuel) todo seen h (λ x m. t x (ground arith)) s in
          (r, rw old e, Visited-skip n todo seen r old v)
      | inr new ↦
          let n_lt = t n (ground (arith, ==_iff n n)) in
          let (inner, e, v) =
            visit_visits fuel (next n) (seen ++ n ∷ [])
              (omega (arith, unseen-add k n seen n_lt new)) (bounded n n_lt)
              (λ x m. ground (arith, member-add x n seen, ==_iff x n, s x)) in
          let (r, f, w) =
            visit_visits (suc fuel) todo inner
              (omega (
                arith,
                unseen_mono k seen inner (λ x m. v.kept x (rw (member-add x n seen, m) refl)),
              ))
              (λ x m. t x (ground arith)) v.below in
          (r, rw (new, e) f, Visited-enter n todo seen inner r v w)
    ]

    reaches_closed :
        (seen r : List ℕ)
        → ((x : ℕ) → member x r ≡ true → (y : ℕ) → member y (next x) ≡ true → member y r ≡ true)
        → {x y : ℕ} → Leads x y
        → member x r ≡ true
        → member y r ≡ true
    reaches_closed seen r c here m = m
    reaches_closed seen r c (step {x = x} {y = y} e l) m = reaches_closed seen r c l (c x m y e)

    -- From nothing, it visits exactly what `todo` leads to.
    pub visit_exact :
        (fuel : ℕ) (todo : List ℕ)
        → k < fuel
        → Below k todo
        → (r : List ℕ) × (visit fuel todo [] ≡ some r)
          × ((x : ℕ) → (member x r ≡ true) ↔ ((t : ℕ) × (member t todo ≡ true) × Leads t x))
    visit_exact fuel todo h t =
        let (r, e, v) = visit_visits fuel todo [] (omega (arith, unseen-le k [])) t (λ x m. cc) in
        (
          r,
          e,
          λ x. (
            λ m. elim (v.sound x m) [ inl s ↦ cc | inr p ↦ p ],
            λ (t, tm, l).
                reaches_closed [] r (λ y m z n. elim (v.closed y m) [ inl s ↦ cc | inr c ↦ c z n ])
                  l (v.covered t tm),
          ),
        )
