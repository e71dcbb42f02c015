-- ===== src/Lint/Order.antt =====
-- The order of the problems in lint/lint.go, `byPosition.Less`, and the rest of `Lint` put together:
-- what it does once the checks have run.
pub mod Determined
use go_tools.Common.{
  ℕ, ◌≡◌, refl, subst, Bool, true, false, not, Option, some, List, [], ◌∷◌, ◌++◌, if◌then◌else◌,
  ◌==◌, ==_iff, ltb, Bool-cases, inl, inr, arith, ◌>>=◌, Name, names_equal,
}
use go_tools.Lint.{Problem, Linter, report, warn_unmatched}
use go_tools.Lint.Directive.{Comment, read_comments}

-- `<` on strings
unfoldable pub name_less : Name → Name → Bool
name_less s [] = false
name_less [] (b ∷ t) = true
name_less (a ∷ s) (b ∷ t) = let rest = name_less s t in if a == b then rest else ltb a b

unfoldable pub less : Problem → Problem → Bool
unfolding name_less
less p q =
    if not (names_equal p.filename q.filename)
    then name_less p.filename q.filename
    else if not (p.line == q.line)
    then ltb p.line q.line
    else if not (p.column == q.column)
    then ltb p.column q.column
    else name_less p.text q.text

module _ (matches : Name → Name → Bool) (join_base : Name → Name → Name)
    (before_number : Name → Option Name) (prefix : Name) (warning : ℕ → Problem)
    (sorted : List Problem → List Problem) where
  -- The problems of a run: those of malformed directives, of the checks in the order of their names,
  -- and of directives that match nothing; `sorted` is `sort.Sort` by `less`.
  unfoldable pub problems : Linter → List Comment → List Problem → Option (List Problem)
  problems l comments found =
      let (malformed, directives) = read_comments comments in
      do
        (out, l') ← report matches join_base (record l { automatic = directives }) found
        some (
            sorted ((malformed ++ out) ++ warn_unmatched before_number prefix warning l'.automatic))

name_less_lem : (s t : Name) → name_less s t ≡ false → name_less t s ≡ false → s ≡ t
unfolding name_less
name_less_lem [] [] h k = refl
name_less_lem [] (b ∷ t) h k = cc
name_less_lem (a ∷ s) [] h k = cc
name_less_lem (a ∷ s) (b ∷ t) h k = ground (arith, name_less_lem s t, ==_iff a b, ==_iff b a)

names_equal_lem : (s t : Name) → names_equal s t ≡ true → s ≡ t
names_equal_lem [] [] h = refl
names_equal_lem [] (b ∷ t) h = cc
names_equal_lem (a ∷ s) [] h = cc
names_equal_lem (a ∷ s) (b ∷ t) h = ground (arith, names_equal_lem s t, ==_iff a b)

names_equal_refl : (s : Name) → names_equal s s ≡ true
names_equal_refl [] = refl
names_equal_refl (a ∷ s) = ground (arith, names_equal_refl s, ==_iff a a)

names_equal_comm : (s t : Name) → names_equal s t ≡ names_equal t s
names_equal_comm [] [] = refl
names_equal_comm [] (b ∷ t) = refl
names_equal_comm (a ∷ s) [] = refl
names_equal_comm (a ∷ s) (b ∷ t) = ground (arith, names_equal_comm s t, ==_iff a b, ==_iff b a)

places :
    (p q : Problem)
    → names_equal p.filename q.filename ≡ true
    → names_equal q.filename p.filename ≡ true
    → less p q ≡ false
    → less q p ≡ false
    → (p.line ≡ q.line) × (p.column ≡ q.column)
unfolding less
places p q e r h k =
    let line : p.line ≡ q.line = ground (arith, ==_iff p.line q.line, ==_iff q.line p.line) in
    (
      line,
      ground (
        arith,
        ==_iff p.line q.line,
        ==_iff q.line p.line,
        ==_iff p.column q.column,
        ==_iff q.column p.column,
      ),
    )

-- Two problems neither of which is before the other have the same file, line, column and text.
pub less_lem :
    (p q : Problem)
    → less p q ≡ false
    → less q p ≡ false
    → (p.filename ≡ q.filename) × (p.line ≡ q.line) × (p.column ≡ q.column) × (p.text ≡ q.text)
unfolding less
less_lem p q h k = elim (Bool-cases (names_equal p.filename q.filename)) [
  | inr n ↦
      let f =
        name_less_lem p.filename q.filename (ground (arith, names_equal_comm p.filename q.filename))
          (ground (arith, names_equal_comm p.filename q.filename)) in
      absurd (
        ground
          (arith, subst (λ s. names_equal p.filename s ≡ true) f (names_equal_refl p.filename)))
  | inl e ↦
      let f = names_equal_lem p.filename q.filename e in
      let r : names_equal q.filename p.filename ≡ true =
        ground (arith, names_equal_comm p.filename q.filename) in
      let (line, column) = places p q e r h k in
      (
        f,
        line,
        column,
        name_less_lem p.text q.text (ground (arith, ==_iff p.line q.line, ==_iff p.column q.column))
            (ground (arith, ==_iff q.line p.line, ==_iff q.column p.column)),
      )
]
