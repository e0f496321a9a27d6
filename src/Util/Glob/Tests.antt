-- ===== src/Util/Glob/Tests.antt =====
-- Patterns matched, and the theorems at concrete inputs.
use rtcl.Prelude.{◌≡◌, ◌↔◌, refl, true, false, codes}
use rtcl.Util.Glob.{glob_match}
use rtcl.Util.Glob.Relation.{Matches}
use rtcl.Util.Glob.Correct.{glob_match-Matches}

matches_range : glob_match (codes "a*[x-z]?") (codes "abcyd") ≡ true
unfolding glob_match
matches_range = refl

misses_end : glob_match (codes "a*b") (codes "abc") ≡ false
unfolding glob_match
misses_end = refl

open_class : glob_match (codes "[abc") (codes "b") ≡ true
unfolding glob_match
open_class = refl

glob_match-Matches_example :
    (glob_match (codes "a*[x-z]") (codes "abcy") ≡ true) ↔ Matches (codes "a*[x-z]") (codes "abcy")
glob_match-Matches_example = glob_match-Matches (codes "a*[x-z]") (codes "abcy")
