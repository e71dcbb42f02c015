-- ===== src/Lint.antt =====
-- The ignores of lint/lint.go: `LineIgnore`, `FileIgnore` and `GlobIgnore` with their `Match`,
-- `Linter.ignore`, and the ends of `Lint`, which leave out ignored problems and warn of directives that
-- matched nothing. The outer `none` of a result is a panic.
pub mod Directive
pub mod Marks
pub mod Order
mod Examples
use go_tools.Common.{
  Name, names_equal, ℕ, zero, suc, Bool, true, false, not, ◌&&◌, ◌||◌, Option, none, some, List, [],
  ◌∷◌, ◌++◌, if◌then◌else◌, ◌==◌, ◌>>=◌,
}

-- What the ignores read of a `Problem`; the package is its path, and `none` for the nil package.
pub record Problem : Type 0 where
  pub filename : Name
  pub line : ℕ
  pub column : ℕ
  pub text : Name
  pub check : Name
  pub package_path : Option Name
  pub ignored : Bool

pub record LineIgnore : Type 0 where
  pub file : Name
  pub line : ℕ
  pub checks : List Name
  pub matched : Bool
  pub pos : ℕ

-- The types that implement the interface `Ignore`.
pub data Ignore : Type 0 where
  line_ignore : LineIgnore → Ignore
  file_ignore : Name → List Name → Ignore
  glob_ignore : Name → List Name → Ignore

pub record Linter : Type 0 where
  pub ignores : List Ignore
  pub return_ignored : Bool
  pub automatic : List Ignore

-- "_test", and `strings.HasSuffix(pkgpath, "_test")` with the cut after it
abbrev test_suffix : Name
test_suffix = 95 ∷ 116 ∷ 101 ∷ 115 ∷ 116 ∷ []

unfoldable pub without_test : Name → Name
without_test [] = []
without_test (c ∷ path) =
    let rest = without_test path in if names_equal (c ∷ path) test_suffix then [] else c ∷ rest

-- li.matched = true
abbrev pub mark_matched : LineIgnore → LineIgnore
mark_matched li = record {
  file = li.file;
  line = li.line;
  checks = li.checks;
  matched = true;
  pos = li.pos;
}

-- Of package path/filepath: whether `Match` answers true, and `Join` of a path and the `Base` of a
-- file name.
module _ (matches : Name → Name → Bool) (join_base : Name → Name → Name) where
  -- The loop over the checks of an ignore.
  unfoldable pub any_check : List Name → Name → Bool
  any_check [] check = false
  any_check (c ∷ checks) check = if matches c check then true else any_check checks check

  -- `LineIgnore.Match`: the answer, and the ignore after it.
  unfoldable pub match_line : LineIgnore → Problem → Bool × LineIgnore
  unfolding any_check
  match_line li p =
      if not (names_equal p.filename li.file) || not (p.line == li.line)
      then (false, li)
      else if any_check li.checks p.check
      then (true, mark_matched li)
      else (false, li)

  -- `FileIgnore.Match`
  unfoldable pub match_file : Name → List Name → Problem → Bool
  unfolding any_check
  match_file file checks p =
      if not (names_equal p.filename file) then false else any_check checks p.check

  -- `GlobIgnore.Match`; 42 is '*'.
  unfoldable pub match_glob : Name → List Name → Problem → Option Bool
  unfolding any_check without_test
  match_glob pattern checks p =
      if not (names_equal pattern (42 ∷ []))
      then (do
        path ← p.package_path
        if not (matches pattern (join_base (without_test path) p.filename))
            then some false
            else some (any_check checks p.check))
      else some (any_check checks p.check)

  -- `ig.Match(p)`, with the ignore after it.
  unfoldable pub match_ignore : Ignore → Problem → Option (Bool × Ignore)
  unfolding match_line match_file match_glob
  match_ignore (line_ignore li) p =
      let (answer, li') = match_line li p in some (answer, line_ignore li')
  match_ignore (file_ignore file checks) p =
      some (match_file file checks p, file_ignore file checks)
  match_ignore (glob_ignore pattern checks) p = do
    answer ← match_glob pattern checks p
    some (answer, glob_ignore pattern checks)

  -- The first loop of `Linter.ignore`, which visits all.
  unfoldable pub match_all : List Ignore → Problem → Option (Bool × List Ignore)
  unfolding match_ignore
  match_all [] p = some (false, [])
  match_all (ig ∷ igs) p = do
    (answer, ig') ← match_ignore ig p
    (others, igs') ← match_all igs p
    some (answer || others, ig' ∷ igs')

  -- The second loop, which stops at the first match.
  unfoldable pub match_first : List Ignore → Problem → Option (Bool × List Ignore)
  unfolding match_ignore
  match_first [] p = some (false, [])
  match_first (ig ∷ igs) p =
      let rest = match_first igs p in
      do
        (answer, ig') ← match_ignore ig p
        if answer
            then some (true, ig' ∷ igs)
            else (do (others, igs') ← rest; some (others, ig' ∷ igs'))

  -- `Linter.ignore`, with the linter after it.
  unfoldable pub ignore : Linter → Problem → Option (Bool × Linter)
  unfolding match_all match_first
  ignore l p = do
    (ignored, automatic) ← match_all l.automatic p
    if ignored
        then some (
          true,
          record { ignores = l.ignores; return_ignored = l.return_ignored; automatic = automatic },
        )
        else (do
          (answer, ignores) ← match_first l.ignores p
          some (
            answer,
            record { ignores = ignores; return_ignored = l.return_ignored; automatic = automatic },
          ))

  -- p.Ignored = ...
  abbrev pub with_ignored : Bool → Problem → Problem
  with_ignored b p = record {
    filename = p.filename;
    line = p.line;
    column = p.column;
    text = p.text;
    check = p.check;
    package_path = p.package_path;
    ignored = b;
  }

  -- The loop of `Lint` over the problems of the jobs: what it appends, and the linter after it.
  unfoldable pub report : Linter → List Problem → Option (List Problem × Linter)
  unfolding ignore
  report l [] = some ([], l)
  report l (p ∷ ps) = do
    (ignored, l') ← ignore l p
    (out, l'') ← report l' ps
    some (if l.return_ignored || not ignored then with_ignored ignored p ∷ out else out, l'')

-- The loop of `Lint` that warns of line ignores that matched nothing, once for each of their checks that
-- is one of the checker's: `before_number` is the part of a name before its first number, if it has one,
-- and `warning` the problem at a position.
module _ (before_number : Name → Option Name) (prefix : Name) (warning : ℕ → Problem) where
  unfoldable pub warn_checks : ℕ → List Name → List Problem
  warn_checks pos [] = []
  warn_checks pos (c ∷ checks) =
      let rest = warn_checks pos checks in
      elim (before_number c) [
        | none ↦ rest
        | some start ↦ if not (names_equal start prefix) then rest else warning pos ∷ rest
      ]

  unfoldable pub warn_unmatched : List Ignore → List Problem
  unfolding warn_checks
  warn_unmatched [] = []
  warn_unmatched (ig ∷ igs) =
      let rest = warn_unmatched igs in
      elim ig [
        | line_ignore li ↦ if li.matched then rest else warn_checks li.pos li.checks ++ rest
        | file_ignore file checks ↦ rest
        | glob_ignore pattern checks ↦ rest
      ]
