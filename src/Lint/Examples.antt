-- ===== src/Lint/Examples.antt =====
-- Tests of the ignores, and the theorems at concrete inputs.
use go_tools.Common.{
  map, eq_of_some, sym, subst, ◌∙◌, ℕ, ◌≡◌, refl, false, none, some, List, [], ◌∷◌, Name,
  names_equal, bytes,
}
use go_tools.Lint.{
  Problem, Ignore, line_ignore, file_ignore, glob_ignore, Linter, report, warn_unmatched,
}
use go_tools.Lint.Directive.{
  Comment, malformed, read_comment, read_comments, parse_directive, read_directive, read_arguments,
  split,
}
use go_tools.Lint.Directive.Parsing.{asked, read_comment-written}
use mathlib.Core.Option
use mathlib.Core.List.Perm
use go_tools.Lint.Order.{less, problems}
use go_tools.Lint.Order.Determined.{place, unsorted, IsSorting, problems_determined}
use go_tools.Lint.Marks.{all_after, report-marks}

-- a check "S" at a line of the file "a"
abbrev at_line : ℕ → Problem
at_line line = record {
  filename = 97 ∷ [];
  line = line;
  column = 1;
  text = [];
  check = 83 ∷ [];
  package_path = some (112 ∷ []);
  ignored = false;
}

abbrev on_line : ℕ → Ignore
on_line line =
    line_ignore
      (record { file = 97 ∷ []; line = line; checks = (83 ∷ []) ∷ []; matched = false; pos = 0 })

abbrev two_lines : Linter
two_lines = record {
  ignores = glob_ignore (42 ∷ []) [] ∷ [];
  return_ignored = false;
  automatic = on_line 3 ∷ file_ignore (97 ∷ []) ((83 ∷ []) ∷ []) ∷ on_line 4 ∷ [];
}

abbrev two_problems : List Problem
two_problems = at_line 4 ∷ at_line 5 ∷ []

abbrev first_name : Name → Name → Name
first_name path file = path

report-marks_example :
    (out : List Problem) × (l' : Linter) × (report names_equal first_name two_lines two_problems
      ≡ some (out, l'))
    × (l'.automatic ≡ all_after names_equal first_name two_problems two_lines.automatic)
report-marks_example =
    report-marks names_equal first_name two_lines two_problems
      ((112 ∷ [], refl), ((112 ∷ [], refl), tt))

-- `//lint:ignore SA1,S2 no need`, at the second line of the file "a"
abbrev two_checks : Comment
two_checks = record {
  text = bytes "//lint:ignore SA1,S2 no need";
  pos = 7;
  place = record { filename = 97 ∷ []; line = 2; column = 1 };
  node_place = record { filename = 97 ∷ []; line = 3; column = 1 };
}

read_comment-written_example :
    read_comment two_checks
    ≡ asked two_checks false (bytes "SA1" ∷ bytes "S2" ∷ []) (bytes "no" ∷ bytes "need" ∷ [])
read_comment-written_example =
    read_comment-written two_checks false (bytes "SA1") (bytes "S2" ∷ [])
      (bytes "no" ∷ bytes "need" ∷ []) refl refl (refl, tt) refl (refl, tt) (refl, (refl, tt))

-- Another directive is passed over, and one without a reason is malformed.
read_comments_test :
    read_comments (
      record two_checks { text = bytes "//lint:other" }
      ∷ record two_checks { text = bytes "//lint:file-ignore S2" }
      ∷ two_checks
      ∷ [])
    ≡ (
      malformed two_checks.place ∷ [],
      line_ignore (record {
        file = 97 ∷ [];
        line = 3;
        checks = bytes "SA1" ∷ bytes "S2" ∷ [];
        matched = false;
        pos = 7;
      })
          ∷ [],
    )
unfolding read_comments read_comment parse_directive read_directive read_arguments split
read_comments_test = refl

-- two problems that differ only in their check
abbrev of_other_check : Problem
of_other_check = record (at_line 4) { check = bytes "T" }

-- A malformed directive, a problem at line 3 that the other directive takes, and one at line 4.
problems_test :
    problems names_equal first_name
      (λ name. none)
      []
      at_line
      (λ ps. ps)
      (record { ignores = []; return_ignored = false; automatic = [] })
      (record two_checks { text = bytes "//lint:ignore S" }
        ∷ record two_checks { text = bytes "//lint:ignore S x" }
        ∷ [])
      (at_line 3 ∷ at_line 4 ∷ [])
    ≡ some (malformed two_checks.place ∷ at_line 4 ∷ [])
unfolding problems read_comments read_comment parse_directive read_directive read_arguments split
    report warn_unmatched
problems_test = refl

-- Two problems of different checks at the same place, and the list the other way round.
abbrev at_one_place : List Problem
at_one_place = at_line 4 ∷ of_other_check ∷ []

abbrev turned : List Problem → List Problem
turned (p ∷ q ∷ []) = q ∷ p ∷ []
turned ps = ps

abbrev no_ignores : Linter
no_ignores = record { ignores = []; return_ignored = false; automatic = [] }

unsorted_places :
    unsorted names_equal first_name (λ name. none) [] at_line no_ignores [] at_one_place
    ≡ some at_one_place
unfolding problems read_comments report warn_unmatched
unsorted_places = refl

as_they_come : IsSorting (λ ps. ps) at_one_place
unfolding less
as_they_come = record { permutes = Perm.rfl; orders = ((refl, tt), (tt, tt)) }

turned-IsSorting : IsSorting turned at_one_place
unfolding less
turned-IsSorting = record {
  permutes = Perm.swap (at_line 4) of_other_check [];
  orders = ((refl, tt), (tt, tt));
}

problems_determined_example :
    Option.map (map place) (
      problems names_equal first_name
        (λ name. none)
        []
        at_line
        (λ ps. ps)
        no_ignores
        []
        at_one_place)
    ≡ Option.map (map place) (
        problems names_equal first_name (λ name. none) [] at_line turned no_ignores [] at_one_place)
problems_determined_example =
    problems_determined names_equal first_name (λ name. none) [] at_line (λ ps. ps) turned
      no_ignores [] at_one_place
      (λ ps e. subst (IsSorting (λ qs. qs)) (eq_of_some (sym unsorted_places ∙ e)) as_they_come)
      (λ ps e. subst (IsSorting turned) (eq_of_some (sym unsorted_places ∙ e)) turned-IsSorting)
