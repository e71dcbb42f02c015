-- ===== src/Lint/Directive.antt =====
-- The directives of lint/lint.go: `parseDirective`, and the loop of `Lint` that reads the comments.
pub mod Parsing
use go_tools.Common.{
  ℕ, zero, suc, Bool, true, false, not, ◌||◌, Option, none, some, List, [], ◌∷◌, ◌++◌,
  if◌then◌else◌, ◌==◌, Name, names_equal, has_prefix, bytes,
}
use go_tools.Lint.{Problem, LineIgnore, Ignore, line_ignore, file_ignore}

-- The parts of a text between separators of one byte, `strings.Split`.
abbrev pub before : ℕ → List Name → List Name
before c [] = []
before c (part ∷ parts) = (c ∷ part) ∷ parts

unfoldable pub split : ℕ → Name → List Name
split separator [] = [] ∷ []
split separator (c ∷ s) =
    let parts = split separator s in if c == separator then [] ∷ parts else before c parts

-- s without its first bytes, as many as `p` has
abbrev pub drop_prefix : Name → Name → Name
drop_prefix [] s = s
drop_prefix (a ∷ p) [] = []
drop_prefix (a ∷ p) (c ∷ s) = drop_prefix p s

abbrev pub marker : Name
marker = bytes "//lint:"

abbrev pub space : ℕ
space = 32

abbrev pub comma : ℕ
comma = 44

abbrev pub head_and_tail : List Name → Name × List Name
head_and_tail [] = ([], [])
head_and_tail (f ∷ fields) = (f, fields)

-- `parseDirective`; a split text has a first field.
unfoldable pub parse_directive : Name → Name × List Name
parse_directive s =
    if not (has_prefix s marker)
    then ([], [])
    else head_and_tail (split space (drop_prefix marker s))

-- A position, as `DisplayPosition` answers it.
pub record Place : Type 0 where
  pub filename : Name
  pub line : ℕ
  pub column : ℕ

-- A comment, with the position of the node that it belongs to.
pub record Comment : Type 0 where
  pub text : Name
  pub pos : ℕ
  pub place : Place
  pub node_place : Place

abbrev pub malformed : Place → Problem
malformed p = record {
  filename = p.filename;
  line = p.line;
  column = p.column;
  text = bytes "malformed linter directive; missing the required reason field?";
  check = [];
  package_path = none;
  ignored = false;
}

-- The body of the loop over the comments: the problem or the ignore that it adds.
unfoldable pub read_arguments : Comment → Bool → List Name → List Problem × List Ignore
read_arguments c whole_file (first ∷ second ∷ rest) =
    let checks = split comma first in
    (
      [],
      (if whole_file
            then file_ignore c.node_place.filename checks
            else line_ignore (record {
              file = c.node_place.filename;
              line = c.node_place.line;
              checks = checks;
              matched = false;
              pos = c.pos;
            }))
          ∷ [],
    )
read_arguments c whole_file _ = (malformed c.place ∷ [], [])

unfoldable pub read_directive : Comment → Name × List Name → List Problem × List Ignore
read_directive c (cmd, args) =
    if names_equal cmd (bytes "ignore")
    then read_arguments c false args
    else if names_equal cmd (bytes "file-ignore")
    then read_arguments c true args
    else ([], [])

unfoldable pub read_comment : Comment → List Problem × List Ignore
read_comment c =
    if not (has_prefix c.text marker) then ([], []) else read_directive c (parse_directive c.text)

-- The loop over the comments of all files, in the order that the loop visits them in.
unfoldable pub read_comments : List Comment → List Problem × List Ignore
read_comments [] = ([], [])
read_comments (c ∷ cs) =
    let (out, igs) = read_comment c in
    let (out', igs') = read_comments cs in (out ++ out', igs ++ igs')
