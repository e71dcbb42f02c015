-- ===== src/Vrp/Graph/Components/Members.antt =====
-- `FindSCCs` of staticcheck/vrp/vrp.go: the loop that fills `SCCs`.
use go_tools.Common.{
  ℕ, zero, suc, ◌<◌, ◌≡◌, inl, inr, refl, sym, ap, subst, true, ◌||◌, ◌&&◌, some, List, [], ◌∷◌,
  ◌++◌, if◌then◌else◌, ◌==◌, ==_iff, Bool-cases, arith, length, get_elem?, set,
}
use go_tools.Common.Search.{member, member-add}
use go_tools.Vrp.Graph.Components.{Tarjan, component, add_members, no_members}
use go_tools.Vrp.Graph.Components.Edge.{eq_of_test}

-- The list at a place, none if there is no such place.
abbrev pub nth : List (List ℕ) → ℕ → List ℕ
nth [] i = []
nth (c ∷ cs) zero = c
nth (c ∷ cs) (suc i) = nth cs i

get_elem?-nth : (cs : List (List ℕ)) (i : ℕ) → i < length cs → get_elem? cs i ≡ some (nth cs i)
get_elem?-nth [] i h = absurd (omega arith)
get_elem?-nth (c ∷ cs) zero h = refl
get_elem?-nth (c ∷ cs) (suc i) h = get_elem?-nth cs i (omega arith)

nth-set :
    (cs : List (List ℕ)) (i j : ℕ) (c : List ℕ)
    → i < length cs
    → nth (set cs i c) j ≡ (if j == i then c else nth cs j)
nth-set [] i j c h = absurd (omega arith)
nth-set (d ∷ cs) zero zero c h = refl
nth-set (d ∷ cs) zero (suc j) c h = ground arith
nth-set (d ∷ cs) (suc i) zero c h = ground arith
nth-set (d ∷ cs) (suc i) (suc j) c h = ground (arith, nth-set cs i j c, ==_iff j i)

length-set : (cs : List (List ℕ)) (i : ℕ) (c : List ℕ) → length (set cs i c) ≡ length cs
length-set [] i c = refl
length-set (d ∷ cs) zero c = refl
length-set (d ∷ cs) (suc i) c = ap suc (length-set cs i c)

pub length-no_members : (n : ℕ) → length (no_members n) ≡ n
length-no_members zero = refl
length-no_members (suc n) = ap suc (length-no_members n)

pub nth-no_members : (n i : ℕ) → nth (no_members n) i ≡ []
nth-no_members zero i = refl
nth-no_members (suc n) zero = refl
nth-no_members (suc n) (suc i) = nth-no_members n i

module _ (t : Tarjan) (number : ℕ → ℕ) where
  pub add_members_lem :
      (order : List ℕ) (cs : List (List ℕ))
      → ((x : ℕ)
          → member x order ≡ true
          → (component t x ≡ some (number x)) × (number x < length cs))
      → (r : List (List ℕ)) × (add_members t order cs ≡ some r)
        × ((x i : ℕ)
            → member x (nth r i) ≡ (member x (nth cs i) || (member x order && (number x == i))))
  unfolding add_members
  add_members_lem [] cs h = (cs, refl, λ x i. ground arith)
  add_members_lem (v ∷ order) cs h =
      let (e, l) = h v (ground (arith, ==_iff v v)) in
      let (r, q, m) =
        add_members_lem order (set cs (number v) (nth cs (number v) ++ v ∷ [])) (λ x k.
          let (a, b) = h x (ground arith) in
          (a, omega (arith, b, length-set cs (number v) (nth cs (number v) ++ v ∷ [])))) in
      (
        r,
        rw (e, get_elem?-nth cs (number v) l) q,
        λ x i. elim (Bool-cases (x == v)) [
          | inl s ↦
              subst
                (λ y.
                  member y (nth r i)
                  ≡ (member y (nth cs i) || (member y (v ∷ order) && (number y == i))))
                (sym (eq_of_test x v s)) (own r i (m v i) l)
          | inr s ↦ ground (
            arith,
            m x i,
            nth-set cs (number v) i (nth cs (number v) ++ v ∷ []) l,
            member-add x v (nth cs (number v)),
            ==_iff i (number v),
          )
        ],
      )
    where
      own :
          (r : List (List ℕ)) (i : ℕ)
          → member v (nth r i) ≡ (
              member v (nth (set cs (number v) (nth cs (number v) ++ v ∷ [])) i)
              || (member v order && (number v == i)))
          → number v < length cs
          → member v (nth r i) ≡ (member v (nth cs i) || (member v (v ∷ order) && (number v == i)))
      own r i m l = ground (
        arith,
        m,
        nth-set cs (number v) i (nth cs (number v) ++ v ∷ []) l,
        member-add v v (nth cs (number v)),
        ==_iff i (number v),
        ==_iff (number v) i,
        ==_iff v v,
      )
