-- ===== src/Staticcheck/Constants/Uniq.antt =====
-- About the constants that `consts` (staticcheck/lint.go) keeps, each once in a row.
use go_tools.Common.{
  ◌≡◌, ◌⊎◌, ◌↔◌, inl, inr, refl, sym, ◌∙◌, Option, Bool, true, List, [], ◌∷◌, ◌++◌, Bool-cases, In,
}
use go_tools.Staticcheck.Constants.{uniq_from, uniq}

pub In-add : {A : Type 0} (x y : A) (xs : List A) → In x xs → In x (xs ++ y ∷ [])
In-add x y [] m = absurd m
In-add x y (z ∷ xs) (inl e) = inl e
In-add x y (z ∷ xs) (inr m) = inr (In-add x y xs m)

pub In-add_self : {A : Type 0} (x : A) (xs : List A) → In x (xs ++ x ∷ [])
In-add_self x [] = inl refl
In-add_self x (z ∷ xs) = inr (In-add_self x xs)

pub In_of_add : {A : Type 0} (x y : A) (xs : List A) → In x (xs ++ y ∷ []) → In x xs ⊎ (y ≡ x)
In_of_add x y [] (inl e) = inr e
In_of_add x y [] (inr n) = absurd n
In_of_add x y (z ∷ xs) (inl e) = inl (inl e)
In_of_add x y (z ∷ xs) (inr m) = elim (In_of_add x y xs m) [ inl n ↦ inl (inr n) | inr e ↦ inr e ]

module _ {V : Type 0} (same : Option V → Option V → Bool)
    (same_eq : (x y : Option V) → same x y ≡ true → x ≡ y) where
  In-uniq_from :
      (c last : Option V) (out : List (Option V))
      → In c (last ∷ out) ↔ In c (last ∷ uniq_from same last out)
  unfolding uniq_from
  In-uniq_from c last [] = (λ m. m, λ m. m)
  In-uniq_from c last (x ∷ out) = elim (Bool-cases (same x last)) [
    | inl q ↦
        let e = same_eq x last q in
        let h = In-uniq_from c last out in
        rw q (
          λ m. elim m [
            | inl a ↦ inl a
            | inr n ↦ elim n [ inl b ↦ inl (sym e ∙ b) | inr o ↦ h.0 (inr o) ]
          ],
          λ m. elim (h.1 m) [ inl a ↦ inl a | inr o ↦ inr (inr o) ],
        )
    | inr q ↦
        let h = In-uniq_from c x out in
        rw q (
          λ m. elim m [ inl a ↦ inl a | inr n ↦ inr (h.0 n) ],
          λ m. elim m [ inl a ↦ inl a | inr n ↦ inr (h.1 n) ],
        )
  ]

  pub In-uniq : (c : Option V) (out : List (Option V)) → In c out ↔ In c (uniq same out)
  unfolding uniq
  In-uniq c [] = (λ m. m, λ m. m)
  In-uniq c (x ∷ out) = In-uniq_from c x out
