-- ===== src/KvStore/Glob.antt =====
-- `globToRegExp`: a Redis-style pattern as an anchored regular expression. Every special character
-- but `*` and `?` is escaped, so it stands for itself; `*` is `.*` and `?` is `.`, and a dot of a
-- regular expression matches anything but a line end.
use ziza_lend.Common.{ℕ, Bool, true, false, not, ◌&&◌, ◌||◌, [], ◌∷◌, ◌==◌, if◌then◌else◌, Text}

-- The characters that `.` does not match.
abbrev pub is_line_end : ℕ → Bool
is_line_end c = c == 10 || c == 13 || c == 0x2028 || c == 0x2029

-- `matcher.test(key)`.
unfoldable pub glob_match : Text → Text → Bool
glob_match [] [] = true
glob_match [] (c ∷ s) = false
glob_match (p ∷ ps) [] = p == b'*' && glob_match ps []
glob_match (p ∷ ps) (c ∷ s) =
    let skip = glob_match ps (c ∷ s) in
    let eat = glob_match (p ∷ ps) s in
    let one = glob_match ps s in
    if p == b'*'
    then skip || (not (is_line_end c) && eat)
    else if p == b'?'
    then not (is_line_end c) && one
    else p == c && one
