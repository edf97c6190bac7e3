-- ===== src/LogFilter.antt =====
-- web/src/lib/logs.ts: the level of a log line, and the filter of the log views. The engine's
-- regular expressions and its table of lower case letters are parameters.
pub mod Laws
pub mod Tests
use marshal_pm.Base.{
  ℕ, ◌+◌, Bool, true, false, not, ◌&&◌, ◌||◌, Option, none, some, List, [], ◌∷◌, ◌++◌, Text, codes,
  text_eq, includes, strip_prefix, is_some, leb, ◌==◌, if◌then◌else◌, map,
}
use marshal_pm.Api.Types.{LogLine}

pub data Level : Type 0 where
  error warn info : Level

-- `\w`: what `\b` tells apart.
abbrev is_word : ℕ → Bool
is_word c = (leb 48 c && leb c 57) || (leb 65 c && leb c 90) || c == 95 || (leb 97 c && leb c 122)

abbrev word_next : Text → Bool
word_next [] = false
word_next (c ∷ s) = is_word c

-- An ASCII letter in lower case; the flag `i` folds no other character into these.
abbrev fold : ℕ → ℕ
fold c = if leb 65 c && leb c 90 then c + 32 else c

ends_word : Option Text → Bool
ends_word none = false
ends_word (some rest) = not (word_next rest)

-- `(warn|warning)\b` at the start of a text whose letters are folded.
warn_here : Text → Bool
warn_here s =
    ends_word (strip_prefix (codes "warn") s) || ends_word (strip_prefix (codes "warning") s)

-- `/\b(warn|warning)\b/` at any place; the flag says whether a word character stands before.
warn_from : Bool → Text → Bool
warn_from before [] = false
warn_from before (c ∷ s) = (not before && warn_here (c ∷ s)) || warn_from (is_word c) s

unfoldable pub mentions_warning : Text → Bool
unfolding warn_from warn_here ends_word strip_prefix
mentions_warning text = warn_from false (map fold text)

unfoldable pub classify_level : LogLine → Level
unfolding mentions_warning
classify_level line =
    if line.stderr then error else if mentions_warning line.text then warn else info

-- `.` matches all but the line terminators.
abbrev is_line_end : ℕ → Bool
is_line_end c = c == 10 || c == 13 || c == 0x2028 || c == 0x2029

-- What stands before the last character, if that is a slash and no line ends before it.
abbrev keep_char : ℕ → Option Text → Option Text
keep_char c none = none
keep_char c (some s) = if is_line_end c then none else some (c ∷ s)

before_slash : Text → Option Text
before_slash [] = none
before_slash (c ∷ []) = if c == 47 then some [] else none
before_slash (c ∷ d ∷ s) = keep_char c (before_slash (d ∷ s))

-- The group of `/^\/(.*)\/$/`.
unfoldable pub slashed : Text → Option Text
unfolding before_slash
slashed [] = none
slashed (c ∷ s) = if c == 47 then before_slash s else none

-- `to_lower` is `toLowerCase`. `regexp` is `new RegExp(pattern)`: the test that the expression
-- makes, or nothing where the constructor throws.
module _ (to_lower : Text → Text) (regexp : Text → Option (Text → Bool)) where
  contains_folded : Text → Text → Bool
  contains_folded text query = includes (to_lower query) (to_lower text)

  match_pattern : Option (Text → Bool) → Text → Text → Bool
  match_pattern none text query = contains_folded text query
  match_pattern (some test) text query = test text

  pub match_slashed : Option Text → Text → Text → Bool
  match_slashed none text query = contains_folded text query
  match_slashed (some pattern) text query = match_pattern (regexp pattern) text query

  unfoldable pub match_filter : Text → Text → Bool
  match_filter text query =
      if text_eq query (codes "") then true else match_slashed (slashed query) text query
