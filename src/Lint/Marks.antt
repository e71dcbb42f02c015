-- ===== src/Lint/Marks.antt =====
-- What `Linter.ignore` and `Lint` record of the ignores that matched (lint/lint.go).
use go_tools.Common.{
  Name, names_equal, ◌≡◌, refl, sym, ap, Bool, true, false, not, ◌||◌, some, List, [], ◌∷◌,
  if◌then◌else◌, ◌==◌, ◌>>=◌, inl, inr, Bool-cases, All, ◌∙◌,
}
use go_tools.Lint.{
  Problem, LineIgnore, Ignore, line_ignore, file_ignore, glob_ignore, Linter, mark_matched,
  any_check, without_test, match_line, match_file, match_glob, match_ignore, match_all, match_first,
  ignore, report, with_ignored,
}

abbrev pub HasPackage : Problem → Type 0
HasPackage p = (path : Name) × (p.package_path ≡ some path)

module _ (matches : Name → Name → Bool) (join_base : Name → Name → Name) where
  -- The problem is on the line of the ignore, and one of its checks is meant.
  abbrev pub hits : LineIgnore → Problem → Bool
  hits li p =
      if not (names_equal p.filename li.file) || not (p.line == li.line)
      then false
      else any_check matches join_base li.checks p.check

  abbrev pub any_hit : LineIgnore → List Problem → Bool
  any_hit li [] = false
  any_hit li (p ∷ ps) = hits li p || any_hit li ps

  abbrev pub set_matched : Bool → LineIgnore → LineIgnore
  set_matched b li = record {
    file = li.file;
    line = li.line;
    checks = li.checks;
    matched = b;
    pos = li.pos;
  }

  -- An ignore after some problems: a line ignore is matched if it was or one of them hits it.
  abbrev pub after : List Problem → Ignore → Ignore
  after ps (line_ignore li) = line_ignore (set_matched (li.matched || any_hit li ps) li)
  after ps (file_ignore file checks) = file_ignore file checks
  after ps (glob_ignore pattern checks) = glob_ignore pattern checks

  abbrev pub all_after : List Problem → List Ignore → List Ignore
  all_after ps [] = []
  all_after ps (ig ∷ igs) = after ps ig ∷ all_after ps igs

  match_line-eq :
      (li : LineIgnore) (p : Problem)
      → match_line matches join_base li p
        ≡ (hits li p, set_matched (li.matched || any_hit li (p ∷ [])) li)
  unfolding match_line
  match_line-eq li p =
      line_answer li (not (names_equal p.filename li.file) || not (p.line == li.line))
        (any_check matches join_base li.checks p.check)
    where
      or_false : (b : Bool) → b || false ≡ b
      or_false true = refl
      or_false false = refl

      or_true : (b : Bool) → true ≡ b || true
      or_true true = refl
      or_true false = refl

      line_answer :
          (li : LineIgnore) (miss hit : Bool)
          → ◌≡◌ {A = Bool × LineIgnore}
              (if miss then (false, li) else if hit then (true, mark_matched li) else (false, li))
              (
                (if miss then false else hit),
                set_matched (li.matched || ((if miss then false else hit) || false)) li,
              )
      line_answer li true hit = ap (λ b. (false, set_matched b li)) (sym (or_false li.matched))
      line_answer li false true = ap (λ b. (true, set_matched b li)) (or_true li.matched)
      line_answer li false false = ap (λ b. (false, set_matched b li)) (sym (or_false li.matched))

  match_ignore_total :
      (ig : Ignore) (p : Problem)
      → HasPackage p
      → (b : Bool) × (match_ignore matches join_base ig p ≡ some (b, after (p ∷ []) ig))
  unfolding match_ignore match_glob
  match_ignore_total (line_ignore li) p h = (hits li p, rw (match_line-eq li p) refl)
  match_ignore_total (file_ignore file checks) p h =
      (match_file matches join_base file checks p, refl)
  match_ignore_total (glob_ignore pattern checks) p (path, e) =
      rw (e, match_ignore, match_glob)
        (glob_answer (names_equal pattern (42 ∷ []))
          (matches pattern (join_base (without_test path) p.filename))
          (any_check matches join_base checks p.check))
    where
      glob_answer :
          (any fits check : Bool)
          → (b : Bool) × (◌>>=◌ {B = Bool × Ignore}
                (if not any then (if not fits then some false else some check) else some check)
                (λ answer. some (answer, glob_ignore pattern checks))
              ≡ some (b, glob_ignore pattern checks))
      glob_answer true fits check = (check, refl)
      glob_answer false true check = (check, refl)
      glob_answer false false check = (false, refl)

  match_all-marks :
      (igs : List Ignore) (p : Problem)
      → HasPackage p
      → (b : Bool) × (match_all matches join_base igs p ≡ some (b, all_after (p ∷ []) igs))
  unfolding match_all
  match_all-marks [] p h = (false, refl)
  match_all-marks (ig ∷ igs) p h =
      let (b, e) = match_ignore_total ig p h in
      let (c, f) = match_all-marks igs p h in (b || c, rw (e, f) refl)

  match_first_total :
      (igs : List Ignore) (p : Problem)
      → HasPackage p
      → (b : Bool) × (igs' : List Ignore) × (match_first matches join_base igs p ≡ some (b, igs'))
  unfolding match_first
  match_first_total [] p h = (false, [], refl)
  match_first_total (ig ∷ igs) p h =
      let (b, e) = match_ignore_total ig p h in
      let (c, igs', f) = match_first_total igs p h in
      elim (Bool-cases b) [
        | inl t ↦ (true, after (p ∷ []) ig ∷ igs, rw (f, e, t) refl)
        | inr t ↦ (c, after (p ∷ []) ig ∷ igs', rw (f, e, t) refl)
      ]

  ignore-marks :
      (l : Linter) (p : Problem)
      → HasPackage p
      → (b : Bool) × (l' : Linter) × (ignore matches join_base l p ≡ some (b, l'))
        × (l'.automatic ≡ all_after (p ∷ []) l.automatic)
        × (l'.return_ignored ≡ l.return_ignored)
  unfolding ignore
  ignore-marks l p h =
      let (b, e) = match_all-marks l.automatic p h in
      let (c, igs, f) = match_first_total l.ignores p h in
      elim (Bool-cases b) [
        | inl t ↦ (
          true,
          record {
            ignores = l.ignores;
            return_ignored = l.return_ignored;
            automatic = all_after (p ∷ []) l.automatic;
          },
          rw (e, t) refl,
          refl,
          refl,
        )
        | inr t ↦ (
          c,
          record {
            ignores = igs;
            return_ignored = l.return_ignored;
            automatic = all_after (p ∷ []) l.automatic;
          },
          rw (e, t, f) refl,
          refl,
          refl,
        )
      ]

  or_assoc : (a b c : Bool) → ((a || (b || false)) || c) ≡ (a || (b || c))
  or_assoc true b c = refl
  or_assoc false true c = refl
  or_assoc false false c = refl

  or_false : (b : Bool) → b || false ≡ b
  or_false true = refl
  or_false false = refl

  after-after :
      (p : Problem) (ps : List Problem) (igs : List Ignore)
      → all_after ps (all_after (p ∷ []) igs) ≡ all_after (p ∷ ps) igs
  after-after p ps [] = refl
  after-after p ps (line_ignore li ∷ igs) = rw (after-after p ps igs) (
      ap (λ b. line_ignore (set_matched b li) ∷ all_after (p ∷ ps) igs)
        (or_assoc li.matched (hits li p) (any_hit li ps)))
  after-after p ps (file_ignore file checks ∷ igs) =
      ap (λ r. file_ignore file checks ∷ r) (after-after p ps igs)
  after-after p ps (glob_ignore pattern checks ∷ igs) =
      ap (λ r. glob_ignore pattern checks ∷ r) (after-after p ps igs)

  after_none : (igs : List Ignore) → igs ≡ all_after [] igs
  after_none [] = refl
  after_none (line_ignore li ∷ igs) =
      rw (← after_none igs)
        (ap (λ b. line_ignore (set_matched b li) ∷ igs) (sym (or_false li.matched)))
  after_none (file_ignore file checks ∷ igs) =
      ap (λ r. file_ignore file checks ∷ r) (after_none igs)
  after_none (glob_ignore pattern checks ∷ igs) =
      ap (λ r. glob_ignore pattern checks ∷ r) (after_none igs)

  -- On problems that have a package, the loop of `Lint` does not panic, and after it a line ignore among
  -- the automatic ignores is matched exactly if it was before or its line and one of its checks are those
  -- of a problem, whatever other ignores match; nothing else of the automatic ignores changes.
  pub report-marks :
      (l : Linter) (ps : List Problem)
      → All HasPackage ps
      → (out : List Problem) × (l' : Linter) × (report matches join_base l ps ≡ some (out, l'))
        × (l'.automatic ≡ all_after ps l.automatic)
  unfolding report
  report-marks l [] hs = ([], l, refl, after_none l.automatic)
  report-marks l (p ∷ ps) (h, hs) =
      let (b, l', e, a, r) = ignore-marks l p h in
      let (out, l'', f, c) = report-marks l' ps hs in
      (
        if l.return_ignored || not b then with_ignored matches join_base b p ∷ out else out,
        l'',
        rw (e, f) refl,
        c ∙ ap (all_after ps) a ∙ after-after p ps l.automatic,
      )
