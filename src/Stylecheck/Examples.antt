-- ===== src/Stylecheck/Examples.antt =====
-- Tests of the checks of stylecheck, and the theorem about names at a concrete name.
use go_tools.Common.{◌≡◌, refl, some, ◌&&◌, ℕ, ◌+◌, ◌-◌, leb, if◌then◌else◌, arith, Name, bytes}
use go_tools.Stylecheck.Names.{Unicode, lint_name, is_initialism}
use go_tools.Stylecheck.Names.Letters.{IsUnicode}
use go_tools.Stylecheck.Names.Rounds.{KeepsLetters, lint_name-KeepsLetters}

-- The functions of package unicode on ASCII.
abbrev ascii : Unicode
ascii = record {
  is_lower = λ c. leb b'a' c && leb c b'z';
  is_digit = λ c. leb b'0' c && leb c b'9';
  to_upper = λ c. if leb b'a' c && leb c b'z' then c - 32 else c;
  to_lower = λ c. if leb b'A' c && leb c b'Z' then c + 32 else c;
}

lint_name_test : lint_name ascii (bytes "get_http__url") ≡ some (bytes "getHTTPURL")
unfolding lint_name is_initialism
lint_name_test = refl

lint_name_digits : lint_name ascii (bytes "utf8_16_id") ≡ some (bytes "utf8_16ID")
unfolding lint_name is_initialism
lint_name_digits = refl

-- ASCII letters up to case.
abbrev fold_ascii : ℕ → ℕ
fold_ascii c = if leb b'A' c && leb c b'Z' then c + 32 else c

ascii-IsUnicode : IsUnicode ascii fold_ascii
ascii-IsUnicode = record {
  fold-upper = λ c. ground arith;
  fold-lower = λ c. ground arith;
  upper-underscore = λ c. ground arith;
  lower-underscore = λ c. ground arith;
}

lint_name-KeepsLetters_example :
    (should : Name) × (lint_name ascii (bytes "get_http__url") ≡ some should)
    × KeepsLetters ascii fold_ascii ascii-IsUnicode (bytes "get_http__url") should
lint_name-KeepsLetters_example =
    lint_name-KeepsLetters ascii fold_ascii ascii-IsUnicode (bytes "get_http__url")
