-- ===== src/Lint/Directive/Parsing.antt =====
-- The directives of lint/lint.go, written and read.
use go_tools.Common.{
  ℕ, ◌≡◌, refl, sym, subst, ◌∙◌, ap, Bool, true, false, not, ◌||◌, List, [], ◌∷◌, ◌++◌,
  if◌then◌else◌, ◌==◌, ==_iff, arith, All, Name, has_prefix, bytes,
}
use go_tools.Common.Search.{member}
use go_tools.Lint.{Problem, Ignore, line_ignore, file_ignore}
use go_tools.Lint.Directive.{
  split, marker, space, comma, parse_directive, Comment, malformed, read_arguments, head_and_tail,
  read_directive, read_comment,
}

-- The texts, with a separator between them.
abbrev pub join : ℕ → Name → List Name → Name
join separator first [] = first
join separator first (part ∷ parts) = first ++ (separator ∷ join separator part parts)

-- A text in which a byte does not occur.
abbrev pub IsFree : ℕ → Name → Type 0
IsFree c s = member c s ≡ false

split-last : (separator : ℕ) (s : Name) → IsFree separator s → split separator s ≡ s ∷ []
unfolding split
split-last separator [] h = refl
split-last separator (c ∷ s) h =
    ground (arith, split-last separator s, ==_iff c separator, ==_iff separator c)

split-part :
    (separator : ℕ) (s rest : Name)
    → IsFree separator s
    → split separator (s ++ (separator ∷ rest)) ≡ s ∷ split separator rest
unfolding split
split-part separator [] rest h = ground (arith, ==_iff separator separator)
split-part separator (c ∷ s) rest h =
    ground (arith, split-part separator s rest, ==_iff c separator, ==_iff separator c)

split-join :
    (separator : ℕ) (first : Name) (parts : List Name)
    → IsFree separator first
    → All (IsFree separator) parts
    → split separator (join separator first parts) ≡ first ∷ parts
split-join separator first [] h a = split-last separator first h
split-join separator first (part ∷ parts) h (b, a) =
    split-part separator first (join separator part parts) h
    ∙ ap (λ ps. first ∷ ps) (split-join separator part parts b a)

member-append : (x : ℕ) (s t : Name) → member x (s ++ t) ≡ (member x s || member x t)
member-append x [] t = refl
member-append x (c ∷ s) t = ground (arith, member-append x s t)

join-IsFree :
    (c separator : ℕ) (first : Name) (parts : List Name)
    → (c == separator) ≡ false
    → IsFree c first
    → All (IsFree c) parts
    → IsFree c (join separator first parts)
join-IsFree c separator first [] n h a = h
join-IsFree c separator first (part ∷ parts) n h (b, a) = ground (
  arith,
  member-append c first (separator ∷ join separator part parts),
  join-IsFree c separator part parts n b a,
)

abbrev pub command : Bool → Name
command whole_file = if whole_file then bytes "file-ignore" else bytes "ignore"

-- A directive with its checks and the words of its reason.
abbrev pub written : Bool → Name → List Name → List Name → Name
written whole_file check checks reason =
    marker ++ join space (command whole_file) (join comma check checks ∷ reason)

-- What a directive asks for: an ignore of its checks, at the line or in the file of the node that it
-- belongs to; without a reason, the problem that it is malformed, at the comment itself.
abbrev pub asked : Comment → Bool → List Name → List Name → List Problem × List Ignore
asked c whole_file checks [] = (malformed c.place ∷ [], [])
asked c true checks (word ∷ words) = ([], file_ignore c.node_place.filename checks ∷ [])
asked c false checks (word ∷ words) = (
  [],
  line_ignore (record {
    file = c.node_place.filename;
    line = c.node_place.line;
    checks = checks;
    matched = false;
    pos = c.pos;
  })
      ∷ [],
)

parse_directive-marker : (s : Name) → parse_directive (marker ++ s) ≡ head_and_tail (split space s)
unfolding parse_directive
parse_directive-marker s = refl

space-IsFree : (whole_file : Bool) → IsFree space (command whole_file)
space-IsFree true = refl
space-IsFree false = refl

parse_directive-written :
    (whole_file : Bool) (check : Name) (checks reason : List Name)
    → IsFree space (join comma check checks)
    → All (IsFree space) reason
    → parse_directive (written whole_file check checks reason)
      ≡ (command whole_file, join comma check checks ∷ reason)
parse_directive-written whole_file check checks reason h a =
    parse_directive-marker (join space (command whole_file) (join comma check checks ∷ reason))
    ∙ ap head_and_tail (
        split-join space (command whole_file) (join comma check checks ∷ reason)
          (space-IsFree whole_file) (h, a))

read_directive-command :
    (c : Comment) (whole_file : Bool) (args : List Name)
    → read_directive c (command whole_file, args) ≡ read_arguments c whole_file args
unfolding read_directive
read_directive-command c true args = refl
read_directive-command c false args = refl

read_comment-marker :
    (c : Comment) (s : Name)
    → c.text ≡ marker ++ s
    → read_comment c ≡ read_directive c (parse_directive (marker ++ s))
unfolding read_comment
read_comment-marker c s h =
    subst
      (λ t.
        (if not (has_prefix t marker) then ([], []) else read_directive c (parse_directive t))
        ≡ read_directive c (parse_directive (marker ++ s)))
      (sym h) refl

read_arguments-asked :
    (c : Comment) (whole_file : Bool) (check : Name) (checks reason : List Name)
    → IsFree comma check
    → All (IsFree comma) checks
    → read_arguments c whole_file (join comma check checks ∷ reason)
      ≡ asked c whole_file (check ∷ checks) reason
unfolding read_arguments
read_arguments-asked c whole_file check checks [] h a = refl
read_arguments-asked c true check checks (word ∷ words) h a =
    rw (split-join comma check checks h a) refl
read_arguments-asked c false check checks (word ∷ words) h a =
    rw (split-join comma check checks h a) refl

-- A directive to ignore checks, whose names have neither a comma nor a space, in a line or in a file,
-- followed by the words of a reason, if any, is read back: `Lint` adds the ignore that it asks for, or
-- reports it as malformed if the reason is missing, and does nothing else.
pub read_comment-written :
    (c : Comment) (whole_file : Bool) (check : Name) (checks reason : List Name)
    → c.text ≡ written whole_file check checks reason
    → IsFree comma check
    → All (IsFree comma) checks
    → IsFree space check
    → All (IsFree space) checks
    → All (IsFree space) reason
    → read_comment c ≡ asked c whole_file (check ∷ checks) reason
read_comment-written c whole_file check checks reason t h a i b r =
    read_comment-marker c (join space (command whole_file) (join comma check checks ∷ reason)) t
    ∙ (ap (λ p. read_directive c p)
          (parse_directive-written whole_file check checks reason
            (join-IsFree space comma check checks refl i b) r)
        ∙ (read_directive-command c whole_file (join comma check checks ∷ reason)
            ∙ read_arguments-asked c whole_file check checks reason h a))
