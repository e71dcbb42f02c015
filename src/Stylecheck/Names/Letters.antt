-- ===== src/Stylecheck/Names/Letters.antt =====
-- About what `lintName` (stylecheck/names.go) keeps of a name.
use go_tools.Common.{
  ◌≡◌, refl, sym, ap, ◌∙◌, [], ◌∷◌, ◌++◌, map, ℕ, zero, suc, ◌+◌, ◌≤◌, ◌==◌, arith, length,
  length-append, if◌then◌else◌, Bool-cases, inl, inr, Name,
}
use go_tools.Stylecheck.Names.{take, drop, underscore, run_of_underscores, Unicode}
use go_tools.Stylecheck.Names.Parts.{take-drop, drop-add, length-take, length-drop}

-- What is to hold of the functions of package unicode, with a folding of letters by which two letters
-- are the same up to case.
pub record IsUnicode (u : Unicode) (fold : ℕ → ℕ) : Type 0 where
  pub fold-upper : (c : ℕ) → fold (u.to_upper c) ≡ fold c
  pub fold-lower : (c : ℕ) → fold (u.to_lower c) ≡ fold c
  pub upper-underscore : (c : ℕ) → (u.to_upper c == underscore) ≡ (c == underscore)
  pub lower-underscore : (c : ℕ) → (u.to_lower c == underscore) ≡ (c == underscore)

-- The runes but underscores, up to case.
abbrev pub letters : (ℕ → ℕ) → Name → Name
letters fold [] = []
letters fold (c ∷ s) = if c == underscore then letters fold s else fold c ∷ letters fold s

module _ (u : Unicode) (fold : ℕ → ℕ) (h : IsUnicode u fold) where
  letters-append : (s t : Name) → letters fold (s ++ t) ≡ letters fold s ++ letters fold t
  letters-append [] t = refl
  letters-append (c ∷ s) t = ground (arith, letters-append s t)

  pub letters-map :
      (f : ℕ → ℕ) (s : Name)
      → ((c : ℕ) → fold (f c) ≡ fold c)
      → ((c : ℕ) → (f c == underscore) ≡ (c == underscore))
      → letters fold (map f s) ≡ letters fold s
  letters-map f [] p q = refl
  letters-map f (c ∷ s) p q = rw (p c, q c, letters-map f s p q) refl

  -- Underscores at the start can be dropped.
  letters-drop :
      (n : ℕ) (s : Name) → n ≤ run_of_underscores s → letters fold (drop n s) ≡ letters fold s
  unfolding run_of_underscores
  letters-drop zero s k = refl
  letters-drop (suc n) [] k = refl
  letters-drop (suc n) (c ∷ s) k = elim (Bool-cases (c == underscore)) [
    | inl e ↦ rw e (letters-drop n s (ground arith))
    | inr e ↦ absurd (ground arith)
  ]

  pub letters-cut :
      (a n : ℕ) (s : Name)
      → n ≤ run_of_underscores (drop a s)
      → letters fold (take a s ++ drop (a + n) s) ≡ letters fold s
  letters-cut a n s k =
      letters-append (take a s) (drop (a + n) s)
      ∙ ap (λ t. letters fold (take a s) ++ letters fold t) (drop-add a n s)
      ∙ ap (λ t. letters fold (take a s) ++ t) (letters-drop n (drop a s) k)
      ∙ sym (letters-append (take a s) (drop a s))
      ∙ ap (letters fold) (take-drop a s)

  -- As many runes with the same letters can be put in.
  pub letters-replace :
      (w : ℕ) (t s : Name)
      → letters fold t ≡ letters fold (take (length t) (drop w s))
      → letters fold (take w s ++ (t ++ drop (w + length t) s)) ≡ letters fold s
  letters-replace w t s e =
      letters-append (take w s) (t ++ drop (w + length t) s)
      ∙ ap (λ r. letters fold (take w s) ++ r)
          (letters-append t (drop (w + length t) s)
            ∙ ap (λ r. letters fold t ++ letters fold r) (drop-add w (length t) s)
            ∙ ap (λ r. r ++ letters fold (drop (length t) (drop w s))) e
            ∙ sym (letters-append (take (length t) (drop w s)) (drop (length t) (drop w s)))
            ∙ ap (letters fold) (take-drop (length t) (drop w s)))
      ∙ sym (letters-append (take w s) (drop w s))
      ∙ ap (letters fold) (take-drop w s)

  pub length-replace :
      (w : ℕ) (t s : Name)
      → w + length t ≤ length s
      → length (take w s ++ (t ++ drop (w + length t) s)) ≡ length s
  length-replace w t s k = omega (
    arith,
    length-append (take w s) (t ++ drop (w + length t) s),
    length-append t (drop (w + length t) s),
    length-take w s (omega arith),
    length-drop (w + length t) s,
  )

  pub length-cut :
      (a n : ℕ) (s : Name)
      → a ≤ length s
      → (a ≤ length (take a s ++ drop (a + n) s)) × (length (take a s ++ drop (a + n) s) ≤ length s)
  length-cut a n s k =
      omega
        (arith, length-append (take a s) (drop (a + n) s), length-take a s k, length-drop (a + n) s)
