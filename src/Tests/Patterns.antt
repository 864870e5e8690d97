-- ===== src/Tests/Patterns.antt =====
-- Runs of src/runtime/pattern.cpp.
use lesh.Base.{◌≡◌, refl, ◌↔◌, Bool, true, false, some, Bytes, codes}
use lesh.Pattern.{
  pattern_match, match_here, meet, match_bracket, bracket_loop, bracket_item, read_element,
  find_close, in_class, match_loop, only_stars, period_refused, is_pattern, is_pattern_from,
  last_close, remove_pattern_escapes, append_quoted, match_prefix, match_suffix,
}
use lesh.Pattern.Bracket.{rest_of, match_bracket-rest}
use lesh.Pattern.Spec.{Matches}
use lesh.Pattern.Decides.{match_here-total, pattern_match_iff}
use lesh.Pattern.Quoting.{
  append_quoted-pattern_match, remove_pattern_escapes-append_quoted, is_pattern-pattern_match,
}
use lesh.Pattern.Trim.{
  IsBest, PrefixMatches, SuffixMatches, match_prefix-IsBest, match_suffix-IsBest,
}

abbrev source_glob : Bytes
source_glob = codes "*[[:alpha:]0-9]*.c"

pattern_match_runs :
    (pattern_match source_glob (codes "a.b7.c") false ≡ true)
    × (pattern_match source_glob (codes ".c") false ≡ false)
    × (pattern_match (codes "[!a-c]") (codes "d") false ≡ true)
    × (pattern_match (codes "[a") (codes "[a") false ≡ true)
    × (pattern_match (codes "*") (codes ".hidden") true ≡ false)
unfolding pattern_match meet match_bracket bracket_loop bracket_item read_element find_close
    in_class match_loop only_stars period_refused
pattern_match_runs = (refl, refl, refl, refl, refl)

is_pattern_runs :
    (is_pattern (codes "[[:alpha:]") ≡ true)
    × (is_pattern (codes "[") ≡ false)
    × (is_pattern (codes "a\\*[b") ≡ false)
    × (is_pattern (codes "[]a]") ≡ true)
unfolding is_pattern is_pattern_from last_close match_bracket bracket_loop bracket_item read_element
    find_close in_class
is_pattern_runs = (refl, refl, refl, refl)

trim_runs :
    (match_prefix (codes "*/") (codes "a/b/c") false ≡ some 2)
    × (match_prefix (codes "*/") (codes "a/b/c") true ≡ some 4)
    × (match_suffix (codes ".*") (codes "a.b.c") true ≡ some 4)
unfolding match_prefix match_suffix pattern_match meet match_bracket bracket_loop bracket_item
    read_element find_close in_class match_loop only_stars period_refused
trim_runs = (refl, refl, refl)

pattern_match_iff_example : (pattern_match source_glob (codes "a.b7.c") true ≡ true) ↔ (
    (period_refused true source_glob (codes "a.b7.c") ≡ false)
    × Matches source_glob (codes "a.b7.c"))
pattern_match_iff_example = pattern_match_iff source_glob (codes "a.b7.c") true

match_here-total_example : (b : Bool) × (match_here source_glob (codes "a.b7.c") false ≡ some b)
match_here-total_example = match_here-total source_glob (codes "a.b7.c") false

match_bracket-rest_example :
    rest_of (match_bracket b'k' (codes "[:alpha:]x-z]*"))
    ≡ rest_of (match_bracket 0 (codes "[:alpha:]x-z]*"))
match_bracket-rest_example = match_bracket-rest b'k' 0 (codes "[:alpha:]x-z]*")

append_quoted-pattern_match_example :
    (pattern_match (append_quoted (codes "*[a-c]")) (codes "b[a-c]") false ≡ true)
    ↔ (codes "b[a-c]" ≡ codes "*[a-c]")
append_quoted-pattern_match_example = append_quoted-pattern_match (codes "*[a-c]") (codes "b[a-c]")

remove_pattern_escapes-append_quoted_example :
    remove_pattern_escapes (append_quoted (codes "a*\\[")) ≡ codes "a*\\["
remove_pattern_escapes-append_quoted_example = remove_pattern_escapes-append_quoted (codes "a*\\[")

is_pattern-pattern_match_example :
    (pattern_match (codes "a\\*[b") (codes "a*[b") false ≡ true)
    ↔ (codes "a*[b" ≡ remove_pattern_escapes (codes "a\\*[b"))
is_pattern-pattern_match_example =
    is_pattern-pattern_match (codes "a\\*[b") (codes "a*[b") is_pattern_runs.2

match_prefix-IsBest_example :
    IsBest
      (PrefixMatches (codes "*/") (codes "a/b/c"))
      true
      5
      (match_prefix (codes "*/") (codes "a/b/c") true)
match_prefix-IsBest_example = match_prefix-IsBest (codes "*/") (codes "a/b/c") true

match_suffix-IsBest_example :
    IsBest
      (SuffixMatches (codes ".*") (codes "a.b.c"))
      false
      5
      (match_suffix (codes ".*") (codes "a.b.c") false)
match_suffix-IsBest_example = match_suffix-IsBest (codes ".*") (codes "a.b.c") false
