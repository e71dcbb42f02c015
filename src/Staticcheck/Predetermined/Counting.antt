-- ===== src/Staticcheck/Predetermined/Counting.antt =====
-- About the count of pairs in `CheckPredeterminedBooleanExprs` (staticcheck/lint.go).
use native.Mathlib.Nat.{suc-mul}
use go_tools.Common.{
  ◌≡◌, inl, inr, refl, subst, ap, ◌∙◌, Option, some, Bool, true, false, List, [], ◌∷◌, ℕ, suc, ◌+◌,
  ◌*◌, ◌≤◌, length, if◌then◌else◌, arith, In, eq_some_of_bind,
}
use go_tools.Vrp.Token.{Token}
use go_tools.Staticcheck.Predetermined.{is_true, count_row, count_trues}

module _ {V : Type 0} (compare : V → Token → Option V → Option Bool) (op : Token) where
  -- Each pair is compared to `b`.
  abbrev pub Agree : Bool → List (Option V) → List (Option V) → Type 0
  Agree b xs ys = (x y : Option V) → In x xs → In y ys → is_true compare op x y ≡ some b

  -- What a count `m`, begun with `n` and over `size` pairs, says of the pairs.
  pub record IsCount (n m size : ℕ) (xs ys : List (Option V)) : Type 0 where
    pub least : n ≤ m
    pub most : m ≤ n + size
    pub none_true : m ≡ n → Agree false xs ys
    pub all_true : m ≡ n + size → Agree true xs ys

  Agree-head :
      (b : Bool) (x y : Option V) (ys : List (Option V))
      → is_true compare op x y ≡ some b
      → Agree b (x ∷ []) ys
      → Agree b (x ∷ []) (y ∷ ys)
  Agree-head b x y ys e h a c (inl p) (inl q) =
      subst (λ z. is_true compare op z c ≡ some b) p
        (subst (λ z. is_true compare op x z ≡ some b) q e)
  Agree-head b x y ys e h a c i (inr j) = h a c i j
  Agree-head b x y ys e h a c (inr i) j = absurd i

  Agree-cons :
      (b : Bool) (x : Option V) (xs ys : List (Option V))
      → Agree b (x ∷ []) ys
      → Agree b xs ys
      → Agree b (x ∷ xs) ys
  Agree-cons b x xs ys g h a c (inl p) j = g a c (inl p) j
  Agree-cons b x xs ys g h a c (inr i) j = h a c i j

  IsCount-pair :
      (t : Bool) (x y : Option V) (ys : List (Option V)) (n m : ℕ)
      → is_true compare op x y ≡ some t
      → IsCount (if t then suc n else n) m (length ys) (x ∷ []) ys
      → IsCount n m (suc (length ys)) (x ∷ []) (y ∷ ys)
  IsCount-pair true x y ys n m e c = record {
    least = omega (arith, c.least);
    most = omega (arith, c.most);
    none_true = λ q. absurd (omega (arith, c.least));
    all_true = λ q. Agree-head true x y ys e (c.all_true (omega arith));
  }
  IsCount-pair false x y ys n m e c = record {
    least = omega (arith, c.least);
    most = omega (arith, c.most);
    none_true = λ q. Agree-head false x y ys e (c.none_true q);
    all_true = λ q. absurd (omega (arith, c.most));
  }

  count_row-IsCount :
      (x : Option V) (ys : List (Option V)) (n m : ℕ)
      → count_row compare op x ys n ≡ some m
      → IsCount n m (length ys) (x ∷ []) ys
  unfolding count_row
  count_row-IsCount x [] n m e = record {
    least = ground arith;
    most = ground arith;
    none_true = λ q a b i j. absurd j;
    all_true = λ q a b i j. absurd j;
  }
  count_row-IsCount x (y ∷ ys) n m e =
      let (t, f, g) =
        eq_some_of_bind (is_true compare op x y)
          (λ t. count_row compare op x ys (if t then suc n else n)) e in
      IsCount-pair t x y ys n m f (count_row-IsCount x ys (if t then suc n else n) m g)

  pub count_trues-IsCount :
      (xs ys : List (Option V)) (n m : ℕ)
      → count_trues compare op xs ys n ≡ some m
      → IsCount n m (length xs * length ys) xs ys
  unfolding count_trues
  count_trues-IsCount [] ys n m e = record {
    least = ground arith;
    most = ground arith;
    none_true = λ q a b i j. absurd i;
    all_true = λ q a b i j. absurd i;
  }
  count_trues-IsCount (x ∷ xs) ys n m e =
      let (k, f, g) =
        eq_some_of_bind (count_row compare op x ys n) (λ k. count_trues compare op xs ys k) e in
      let r = count_row-IsCount x ys n k f in
      let c = count_trues-IsCount xs ys k m g in
      let size = suc-mul (length xs) (length ys) in
      record {
        least = omega (arith, r.least, c.least);
        most = omega (arith, r.most, c.most);
        none_true = λ q.
            Agree-cons false x xs ys (r.none_true (omega (arith, r.least, c.least)))
              (c.none_true (omega (arith, r.least, c.least)));
        all_true = λ q.
            Agree-cons true x xs ys (r.all_true (omega (arith, r.most, c.most)))
              (c.all_true (omega (arith, r.most, c.most)));
      }

  count_row_lem :
      (b : Bool) (x : Option V) (ys : List (Option V)) (n : ℕ)
      → Agree b (x ∷ []) ys
      → count_row compare op x ys n ≡ some (if b then n + length ys else n)
  unfolding count_row
  count_row_lem true x [] n h = ground arith
  count_row_lem false x [] n h = refl
  count_row_lem true x (y ∷ ys) n h =
      rw (h x y (inl refl) (inl refl))
        (count_row_lem true x ys (suc n) (λ a c i j. h a c i (inr j)) ∙ ap some (omega arith))
  count_row_lem false x (y ∷ ys) n h =
      rw (h x y (inl refl) (inl refl)) (count_row_lem false x ys n (λ a c i j. h a c i (inr j)))

  pub count_trues_lem :
      (b : Bool) (xs ys : List (Option V)) (n : ℕ)
      → Agree b xs ys
      → count_trues compare op xs ys n ≡ some (if b then n + length xs * length ys else n)
  unfolding count_trues
  count_trues_lem true [] ys n h = ground arith
  count_trues_lem false [] ys n h = refl
  count_trues_lem true (x ∷ xs) ys n h =
      let head : Agree true (x ∷ []) ys =
        λ a c i j. elim i [ inl e ↦ h a c (inl e) j | inr f ↦ absurd f ] in
      rw (count_row_lem true x ys n head) (
        count_trues_lem true xs ys (n + length ys) (λ a c i j. h a c (inr i) j)
        ∙ ap some (omega (arith, suc-mul (length xs) (length ys))))
  count_trues_lem false (x ∷ xs) ys n h =
      let head : Agree false (x ∷ []) ys =
        λ a c i j. elim i [ inl e ↦ h a c (inl e) j | inr f ↦ absurd f ] in
      rw (count_row_lem false x ys n head)
        (count_trues_lem false xs ys n (λ a c i j. h a c (inr i) j))
