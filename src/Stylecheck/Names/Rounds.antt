-- ===== src/Stylecheck/Names/Rounds.antt =====
-- About the loop of `lintName` (stylecheck/names.go).
use go_tools.Common.{
  ◌≡◌, refl, sym, ap, ◌∙◌, Option, none, some, Bool, true, false, not, ◌&&◌, ◌||◌, [], ◌∷◌, ◌++◌,
  map, ℕ, zero, suc, ◌+◌, ◌-◌, ◌≤◌, ◌<◌, ◌==◌, ==_iff, ltb, leb, arith, length, get_elem?,
  Bool-cases, inl, inr, Name, names_equal,
}
use go_tools.Stylecheck.Names.{
  take, drop, underscore, run_of_underscores, Unicode, removed, squeeze, end_of_word, fix_word,
  words, all_lower, lint_name, is_initialism,
}
use go_tools.Stylecheck.Names.Parts.{
  length-take, length-drop, length-map, get_elem?-lt, drop-get_elem?, rune_slice_lem,
}
use go_tools.Stylecheck.Names.Letters.{
  IsUnicode, letters, letters-map, letters-cut, letters-replace, length-replace, length-cut,
}

module _ (u : Unicode) (fold : ℕ → ℕ) (h : IsUnicode u fold) where
  removed-le : (a n : ℕ) (next : Option ℕ) → removed u a n next ≤ n
  unfolding removed
  removed-le a n none = omega arith
  removed-le a n (some c) = ground arith

  -- What the first half of a round makes of the runes.
  record IsEnd (i : ℕ) (runes runes' : Name) : Type 0 where
    pub same : letters fold runes' ≡ letters fold runes
    pub inside : i + 1 ≤ length runes'
    pub no_longer : length runes' ≤ length runes

  run-drop :
      (i : ℕ) (runes : Name)
      → get_elem? runes (i + 1) ≡ some underscore
      → run_of_underscores (drop (i + 1) runes) ≡ suc (run_of_underscores (drop (i + 2) runes))
  unfolding run_of_underscores
  run-drop i runes e =
      let two : suc (i + 1) ≡ i + 2 = omega arith in
      ap run_of_underscores (drop-get_elem? runes (i + 1) underscore e)
      ∙ ap (λ n. suc (run_of_underscores (drop n runes))) two

  squeeze-IsEnd :
      (i : ℕ) (runes : Name)
      → get_elem? runes (i + 1) ≡ some underscore
      → i + 1 < length runes
      → (runes' : Name) × (squeeze u runes i ≡ some runes') × IsEnd i runes runes'
  unfolding squeeze
  squeeze-IsEnd i runes e k =
      let (a, f) = get_elem?-lt runes i (omega arith) in
      let n : ℕ = suc (run_of_underscores (drop (i + 2) runes)) in
      let m : ℕ = removed u a n (get_elem? runes (i + n + 1)) in
      let run = run-drop i runes e in
      let fits : m ≤ run_of_underscores (drop (i + 1) runes) =
        omega (arith, removed-le a n (get_elem? runes (i + n + 1)), run) in
      let swap : i + m + 1 ≡ (i + 1) + m = omega arith in
      let (at_least, at_most) = length-cut u fold h (i + 1) m runes (omega arith) in
      (
        take (i + 1) runes ++ drop (i + m + 1) runes,
        rw f refl,
        rw swap (record {
          same = letters-cut u fold h (i + 1) m runes fits;
          inside = at_least;
          no_longer = at_most;
        }),
      )

  end_of_word-IsEnd :
      (i : ℕ) (runes : Name)
      → i + 1 ≤ length runes
      → (runes' : Name) × (eow : Bool) × (end_of_word u runes i ≡ some (runes', eow))
        × IsEnd i runes runes'
  unfolding end_of_word
  end_of_word-IsEnd i runes k = elim (Bool-cases (i + 1 == length runes)) [
    | inl e ↦ (runes, true, rw e refl, record { same = refl; inside = k; no_longer = omega arith })
    | inr e ↦
        let lt : i + 1 < length runes = ground (arith, ==_iff (i + 1) (length runes)) in
        let (c, f) = get_elem?-lt runes (i + 1) lt in
        elim (Bool-cases ((c == underscore) && not (i + 1 == length runes - 1))) [
          | inl t ↦
              let q : c ≡ underscore = ground (arith, t, ==_iff c underscore) in
              let (runes', g, w) = squeeze-IsEnd i runes (f ∙ ap some q) lt in
              (runes', true, rw (e, f, t, g) refl, w)
          | inr t ↦
              let (a, g) = get_elem?-lt runes i (omega arith) in
              (
                runes,
                u.is_lower a && not (u.is_lower c),
                rw (e, f, t, g) refl,
                record { same = refl; inside = k; no_longer = omega arith },
              )
        ]
  ]

  -- What the second half makes of them.
  record IsFixed (runes runes' : Name) : Type 0 where
    pub same : letters fold runes' ≡ letters fold runes
    pub as_long : length runes' ≡ length runes

  replace-IsFixed :
      (w : ℕ) (t s : Name)
      → w + length t ≤ length s
      → letters fold t ≡ letters fold (take (length t) (drop w s))
      → IsFixed s (take w s ++ (t ++ drop (w + length t) s))
  replace-IsFixed w t s k e = record {
    same = letters-replace u fold h w t s e;
    as_long = length-replace u fold h w t s k;
  }

  -- A word from `w` to `i` can be replaced by one of its length and letters.
  word-IsFixed :
      (w i : ℕ) (t s : Name)
      → w < i
      → i ≤ length s
      → length t ≡ i - w
      → letters fold t ≡ letters fold (take (i - w) (drop w s))
      → IsFixed s (take w s ++ (t ++ drop (w + length t) s))
  word-IsFixed w i t s lt k long e =
      replace-IsFixed w t s (omega arith)
        (e ∙ ap (λ n. letters fold (take n (drop w s))) (sym long))

  capital-IsFixed :
      (w first : ℕ) (s : Name)
      → w < length s
      → get_elem? s w ≡ some first
      → IsFixed s (take w s ++ u.to_upper first ∷ drop (w + 1) s)
  capital-IsFixed w first s k e = replace-IsFixed w (u.to_upper first ∷ []) s (omega arith) (
      letters-map u fold h u.to_upper (first ∷ []) h.fold-upper h.upper-underscore
      ∙ ap (λ t. letters fold (take 1 t)) (sym (drop-get_elem? s w first e)))

  fix_word-IsFixed :
      (w i : ℕ) (runes : Name)
      → w < i
      → i ≤ length runes
      → (runes' : Name) × (fix_word u runes w i ≡ some runes') × IsFixed runes runes'
  unfolding fix_word
  fix_word-IsFixed w i runes lt k =
      let word : Name = take (i - w) (drop w runes) in
      let upper : Name = map u.to_upper word in
      let (first, e) = get_elem?-lt runes w (omega arith) in
      let long : length upper ≡ i - w =
        length-map u.to_upper word
        ∙ length-take (i - w) (drop w runes) (omega (arith, length-drop w runes)) in
      let same : letters fold upper ≡ letters fold word =
        letters-map u fold h u.to_upper word h.fold-upper h.upper-underscore in
      elim (Bool-cases (is_initialism upper)) [
        | inl c ↦ elim (Bool-cases ((w == 0) && u.is_lower first)) [
          | inl d ↦
              let long' : length (map u.to_lower upper) ≡ i - w =
                length-map u.to_lower upper ∙ long in
              (
                take w runes
                    ++ (map u.to_lower upper ++ drop (w + length (map u.to_lower upper)) runes),
                rw (rune_slice_lem w i runes (omega arith) k, e, c, d) refl,
                word-IsFixed w i (map u.to_lower upper) runes lt k long'
                    (letters-map u fold h u.to_lower upper h.fold-lower h.lower-underscore ∙ same),
              )
          | inr d ↦ (
            take w runes ++ (upper ++ drop (w + length upper) runes),
            rw (rune_slice_lem w i runes (omega arith) k, e, c, d) refl,
            word-IsFixed w i upper runes lt k long same,
          )
        ]
        | inr c ↦ elim (Bool-cases (ltb 0 w && names_equal (map u.to_lower word) word)) [
          | inl d ↦ (
            take w runes ++ u.to_upper first ∷ drop (w + 1) runes,
            rw (rune_slice_lem w i runes (omega arith) k, e, c, d) refl,
            capital-IsFixed w first runes (omega arith) e,
          )
          | inr d ↦ (
            runes,
            rw (rune_slice_lem w i runes (omega arith) k, e, c, d) refl,
            record { same = refl; as_long = refl },
          )
        ]
      ]

  -- What the loop makes of the runes.
  pub record KeepsLetters (name name' : Name) : Type 0 where
    pub same : letters fold name' ≡ letters fold name
    pub no_longer : length name' ≤ length name

  words-stop :
      (fuel : ℕ) (runes : Name) (w i : ℕ)
      → leb (i + 1) (length runes) ≡ false
      → words u (suc fuel) runes w i ≡ some runes
  unfolding words
  words-stop fuel runes w i n = ground (arith, n)

  words-inside :
      (fuel : ℕ) (runes r1 r2 : Name) (w i : ℕ)
      → leb (i + 1) (length runes) ≡ true
      → end_of_word u runes i ≡ some (r1, false)
      → words u fuel r1 w (i + 1) ≡ some r2
      → words u (suc fuel) runes w i ≡ some r2
  unfolding words
  words-inside fuel runes r1 r2 w i y e q = ground (arith, y, e, q)

  words-end :
      (fuel : ℕ) (runes r1 r2 r3 : Name) (w i : ℕ)
      → leb (i + 1) (length runes) ≡ true
      → end_of_word u runes i ≡ some (r1, true)
      → fix_word u r1 w (i + 1) ≡ some r2
      → words u fuel r2 (i + 1) (i + 1) ≡ some r3
      → words u (suc fuel) runes w i ≡ some r3
  unfolding words
  words-end fuel runes r1 r2 r3 w i y e q p = ground (arith, y, e, q, p)

  words-KeepsLetters :
      (fuel : ℕ) (runes : Name) (w i : ℕ)
      → length runes < fuel + i
      → w ≤ i
      → i ≤ length runes
      → (runes' : Name) × (words u fuel runes w i ≡ some runes') × KeepsLetters runes runes'
  words-KeepsLetters zero runes w i f le k = absurd (omega arith)
  words-KeepsLetters (suc fuel) runes w i f le k = elim (Bool-cases (leb (i + 1) (length runes))) [
    | inr n ↦ (runes, words-stop fuel runes w i n, record { same = refl; no_longer = omega arith })
    | inl y ↦
        let less : i + 1 ≤ length runes = ground arith in
        let (r1, eow, e, g) = end_of_word-IsEnd i runes less in
        elim (Bool-cases eow) [
          | inr n ↦
              let (r2, q, z) =
                words-KeepsLetters fuel r1 w (i + 1) (omega (arith, g.no_longer)) (omega arith)
                  g.inside in
              (
                r2,
                words-inside fuel runes r1 r2 w i y (e ∙ ap (λ b. some (r1, b)) n) q,
                record {
                  same = z.same ∙ g.same;
                  no_longer = omega (arith, z.no_longer, g.no_longer);
                },
              )
          | inl t ↦
              let (r2, q, z) = fix_word-IsFixed w (i + 1) r1 (omega arith) g.inside in
              let (r3, p, x) =
                words-KeepsLetters fuel r2 (i + 1) (i + 1) (omega (arith, g.no_longer, z.as_long))
                  (omega arith) (omega (arith, g.inside, z.as_long)) in
              (
                r3,
                words-end fuel runes r1 r2 r3 w i y (e ∙ ap (λ b. some (r1, b)) t) q p,
                record {
                  same = x.same ∙ z.same ∙ g.same;
                  no_longer = omega (arith, x.no_longer, z.as_long, g.no_longer);
                },
              )
        ]
  ]

  -- For functions on letters that keep them up to case, and take no letter to an underscore or back,
  -- lintName ends without a panic, and what it answers is no longer than the name and has the same runes
  -- as the name up to case, underscores left aside.
  pub lint_name-KeepsLetters :
      (name : Name) → (should : Name) × (lint_name u name ≡ some should) × KeepsLetters name should
  unfolding lint_name
  lint_name-KeepsLetters name =
      elim (Bool-cases (names_equal name (underscore ∷ []) || all_lower u name)) [
        | inl e ↦ (name, rw e refl, record { same = refl; no_longer = omega arith })
        | inr e ↦
            let (r, q, k) =
              words-KeepsLetters (length name + 1) name 0 0 (omega arith) (omega arith)
                (omega arith) in
            (r, rw e q, k)
      ]
