-- ===== src/Stylecheck/Names.antt =====
-- `lintName` of stylecheck/names.go, with its table of initialisms.
pub mod Parts
pub mod Letters
pub mod Rounds
use go_tools.Common.{
  ◌≡◌, Option, none, some, Bool, true, false, not, ◌&&◌, ◌||◌, List, [], ◌∷◌, ◌++◌, map, ℕ, zero,
  suc, ◌+◌, ◌-◌, ◌==◌, ltb, leb, length, get_elem?, if◌then◌else◌, ◌>>=◌, Name, names_equal, bytes,
}

abbrev pub take : ℕ → Name → Name
take zero s = []
take (suc n) [] = []
take (suc n) (c ∷ s) = c ∷ take n s

abbrev pub drop : ℕ → Name → Name
drop zero s = s
drop (suc n) [] = []
drop (suc n) (c ∷ s) = drop n s

-- commonInitialisms
abbrev common_initialisms : List Name
common_initialisms =
    bytes "ACL"
    ∷ bytes "API"
    ∷ bytes "ASCII"
    ∷ bytes "CPU"
    ∷ bytes "CSS"
    ∷ bytes "DNS"
    ∷ bytes "EOF"
    ∷ bytes "GUID"
    ∷ bytes "HTML"
    ∷ bytes "HTTP"
    ∷ bytes "HTTPS"
    ∷ bytes "ID"
    ∷ bytes "IP"
    ∷ bytes "JSON"
    ∷ bytes "QPS"
    ∷ bytes "RAM"
    ∷ bytes "RPC"
    ∷ bytes "SLA"
    ∷ bytes "SMTP"
    ∷ bytes "SQL"
    ∷ bytes "SSH"
    ∷ bytes "TCP"
    ∷ bytes "TLS"
    ∷ bytes "TTL"
    ∷ bytes "UDP"
    ∷ bytes "UI"
    ∷ bytes "GID"
    ∷ bytes "UID"
    ∷ bytes "UUID"
    ∷ bytes "URI"
    ∷ bytes "URL"
    ∷ bytes "UTF8"
    ∷ bytes "VM"
    ∷ bytes "XML"
    ∷ bytes "XMPP"
    ∷ bytes "XSRF"
    ∷ bytes "XSS"
    ∷ []

in_names : Name → List Name → Bool
in_names s [] = false
in_names s (t ∷ names) = names_equal t s || in_names s names

unfoldable pub is_initialism : Name → Bool
unfolding in_names
is_initialism s = in_names s common_initialisms

abbrev pub underscore : ℕ
underscore = b'_'

-- How many underscores the runes begin with.
unfoldable pub run_of_underscores : Name → ℕ
run_of_underscores [] = 0
run_of_underscores (c ∷ s) = if c == underscore then suc (run_of_underscores s) else 0

-- s[a:b], which panics out of range
unfoldable pub rune_slice : ℕ → ℕ → Name → Option Name
rune_slice a b s = if leb a b && leb b (length s) then some (take (b - a) (drop a s)) else none

-- The functions of package unicode that are used; strings.ToUpper and strings.ToLower map the runes.
pub record Unicode : Type 0 where
  pub is_lower : ℕ → Bool
  pub is_digit : ℕ → Bool
  pub to_upper : ℕ → ℕ
  pub to_lower : ℕ → ℕ

module _ (u : Unicode) where
  open u use {is_lower, is_digit, to_upper, to_lower}

  -- How many of `n` underscores are removed, between the runes `a` and `next`.
  unfoldable pub removed : ℕ → ℕ → Option ℕ → ℕ
  removed a n none = n
  removed a n (some next) = if is_digit a && is_digit next then n - 1 else n

  -- The branch for an underscore at `i + 1` that is not the last rune.
  unfoldable pub squeeze : Name → ℕ → Option Name
  unfolding run_of_underscores removed
  squeeze runes i = do
    let n = suc (run_of_underscores (drop (i + 2) runes))
    a ← get_elem? runes i
    some (take (i + 1) runes ++ drop (i + removed a n (get_elem? runes (i + n + 1)) + 1) runes)

  -- The runes after the tests of a round, and `eow`.
  unfoldable pub end_of_word : Name → ℕ → Option (Name × Bool)
  unfolding squeeze
  end_of_word runes i = if i + 1 == length runes then some (runes, true) else do
    c ← get_elem? runes (i + 1)
    if (c == underscore) && not (i + 1 == length runes - 1)
        then (do runes' ← squeeze runes i; some (runes', true))
        else do a ← get_elem? runes i; some (runes, is_lower a && not (is_lower c))

  -- The runes after the end of a round for the word from `w` to `i`.
  unfoldable pub fix_word : Name → ℕ → ℕ → Option Name
  unfolding rune_slice
  fix_word runes w i = do
    word ← rune_slice w i runes
    first ← get_elem? runes w
    let upper = map to_upper word
    let fixed = if (w == 0) && is_lower first then map to_lower upper else upper
    if is_initialism upper
        then some (take w runes ++ (fixed ++ drop (w + length fixed) runes))
        else if ltb 0 w && names_equal (map to_lower word) word
        then some (take w runes ++ to_upper first ∷ drop (w + 1) runes)
        else some runes

  -- The fuel bounds the rounds.
  unfoldable pub words : ℕ → Name → ℕ → ℕ → Option Name
  unfolding end_of_word fix_word
  words zero runes w i = none
  words (suc fuel) runes w i = elim (leb (i + 1) (length runes)) [
    | false ↦ some runes
    | true ↦ do
      (runes', eow) ← end_of_word runes i
      elim eow [
        | false ↦ words fuel runes' w (i + 1)
        | true ↦ do fixed ← fix_word runes' w (i + 1); words fuel fixed (i + 1) (i + 1)
      ]
  ]

  unfoldable pub all_lower : Name → Bool
  all_lower [] = true
  all_lower (c ∷ s) = is_lower c && all_lower s

  unfoldable pub lint_name : Name → Option Name
  unfolding words all_lower
  lint_name name =
      if names_equal name (underscore ∷ []) || all_lower name
      then some name
      else words (length name + 1) name 0 0
