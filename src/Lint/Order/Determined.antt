-- ===== src/Lint/Order/Determined.antt =====
-- How far `sort.Sort` with `byPosition.Less` (lint/lint.go) determines what `Lint` answers.
use mathlib.Core.Logic.Or
use mathlib.Core.List.{Mem, Perm, mem-cons, mem-cons_self, not-mem-nil}
use mathlib.Core.List.Perm
use mathlib.Core.Option
use go_tools.Common.{
  ℕ, ◌≡◌, refl, sym, subst, ap, Bool, false, Option, some, none, List, [], ◌∷◌, map, ==_iff, arith,
  All, Name,
}
use go_tools.Lint.{Problem, Linter}
use go_tools.Lint.Directive.{Comment}
use go_tools.Lint.Order.{name_less, less, less_lem, problems, names_equal_refl}

-- What `Less` reads of a problem: the file, line, column and text.
abbrev pub place : Problem → Problem
place p = record p { check = []; package_path = none; ignored = false }

-- No problem is before one that stands in front of it.
abbrev pub IsOrdered : List Problem → Type 0
IsOrdered [] = Unit
IsOrdered (p ∷ ps) = All (λ q. less q p ≡ false) ps × IsOrdered ps

name_less_irrefl : (s : Name) → name_less s s ≡ false
unfolding name_less
name_less_irrefl [] = refl
name_less_irrefl (a ∷ s) = ground (arith, name_less_irrefl s, ==_iff a a)

less_irrefl : (p : Problem) → less p p ≡ false
unfolding less
less_irrefl p = ground (
  arith,
  names_equal_refl p.filename,
  name_less_irrefl p.text,
  ==_iff p.line p.line,
  ==_iff p.column p.column,
)

-- The first of an ordered list has nothing before it.
first_least :
    (p k : Problem) (ps : List Problem)
    → All (λ q. less q p ≡ false) ps
    → Mem k (map place ps)
    → less k p ≡ false
unfolding less
first_least p k [] h m = absurd (not-mem-nil m)
first_least p k (q ∷ ps) (e, h) m =
    Or.elim (hlevel) (mem-cons.0 m) (λ c. subst (λ x. less x p ≡ false) (sym c) e)
      (first_least p k ps h)

first_least_self :
    (p k : Problem) (ps : List Problem)
    → All (λ q. less q p ≡ false) ps
    → Mem k (map place (p ∷ ps))
    → less k p ≡ false
unfolding less
first_least_self p k ps h m = first_least p k (p ∷ ps) (less_irrefl p, h) m

same_place : (p q : Problem) → less p q ≡ false → less q p ≡ false → place p ≡ place q
same_place p q h k = let (f, l, c, t) = less_lem p q h k in cc

-- Two ordered lists of the same places are the same, places alone regarded.
ordered_unique :
    (ps qs : List Problem)
    → IsOrdered ps
    → IsOrdered qs
    → Perm (map place ps) (map place qs)
    → map place ps ≡ map place qs
unfolding less
ordered_unique [] qs h k p = Perm.nil-eq p
ordered_unique (a ∷ ps) [] h k p = Perm.eq-nil p
ordered_unique (a ∷ ps) (b ∷ qs) (h, hs) (k, ks) p =
    let b_after : less b a ≡ false =
      first_least_self a (place b) ps h ((Perm.mem_iff p).1 mem-cons_self) in
    let a_after : less a b ≡ false =
      first_least_self b (place a) qs k ((Perm.mem_iff p).0 mem-cons_self) in
    let heads = same_place a b a_after b_after in
    let tails =
      ordered_unique ps qs hs ks
        (Perm.cons_inv (Perm.trans p (Perm.symm (Perm.cons' heads Perm.rfl)))) in
    heads_tails heads tails
  where
    heads_tails :
        place a ≡ place b → map place ps ≡ map place qs → map place (a ∷ ps) ≡ map place (b ∷ qs)
    heads_tails e f = cc

-- What sort.Sort promises of a list.
pub record IsSorting (sort : List Problem → List Problem) (ps : List Problem) : Type 0 where
  pub permutes : Perm (sort ps) ps
  pub orders : IsOrdered (sort ps)

sorts_agree :
    (sort1 sort2 : List Problem → List Problem) (ps : List Problem)
    → IsSorting sort1 ps
    → IsSorting sort2 ps
    → map place (sort1 ps) ≡ map place (sort2 ps)
sorts_agree sort1 sort2 ps s t =
    ordered_unique (sort1 ps) (sort2 ps) s.orders t.orders
      (Perm.map place (Perm.trans s.permutes (Perm.symm t.permutes)))

module _ (matches : Name → Name → Bool) (join_base : Name → Name → Name)
    (before_number : Name → Option Name) (prefix : Name) (warning : ℕ → Problem) where
  -- What is sorted.
  abbrev pub unsorted : Linter → List Comment → List Problem → Option (List Problem)
  unsorted = problems matches join_base before_number prefix warning (λ ps. ps)

  problems-unsorted :
      (sort : List Problem → List Problem) (l : Linter) (comments : List Comment)
      (found : List Problem)
      → problems matches join_base before_number prefix warning sort l comments found
        ≡ Option.map sort (unsorted l comments found)
  unfolding problems
  problems-unsorted sort l comments found = ground arith

  -- Whatever sort.Sort makes of the order, as long as it permutes the problems of a run and leaves none
  -- behind one that is to follow it, the files, lines, columns and texts of the problems that `Lint`
  -- answers, in their order, are the same.
  pub problems_determined :
      (sort1 sort2 : List Problem → List Problem) (l : Linter) (comments : List Comment)
      (found : List Problem)
      → ((ps : List Problem) → unsorted l comments found ≡ some ps → IsSorting sort1 ps)
      → ((ps : List Problem) → unsorted l comments found ≡ some ps → IsSorting sort2 ps)
      → Option.map
          (map place)
          (problems matches join_base before_number prefix warning sort1 l comments found)
        ≡ Option.map
            (map place)
            (problems matches join_base before_number prefix warning sort2 l comments found)
  problems_determined sort1 sort2 l comments found h k =
      rw (problems-unsorted sort1 l comments found, problems-unsorted sort2 l comments found)
        (by_unsorted (unsorted l comments found) refl)
    where
      by_unsorted :
          (m : Option (List Problem))
          → unsorted l comments found ≡ m
          → Option.map (map place) (Option.map sort1 m)
            ≡ Option.map (map place) (Option.map sort2 m)
      by_unsorted none e = refl
      by_unsorted (some ps) e = ap some (sorts_agree sort1 sort2 ps (h ps e) (k ps e))
