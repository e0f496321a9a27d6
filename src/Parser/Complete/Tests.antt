-- ===== src/Parser/Complete/Tests.antt =====
-- Scripts, and the theorems at concrete inputs.
use rtcl.Prelude.{◌≡◌, refl, Bool, some, true, false, codes, arith}
use rtcl.Parser.Complete.{scan_script, is_complete}
use rtcl.Parser.Complete.Fuel.{scan_script-is_complete}

complete_set : is_complete (codes "set a {b \\} \"[c]}") ≡ some true
unfolding is_complete
complete_set = refl

open_bracket : is_complete (codes "puts \"[a {]}\"") ≡ some false
unfolding is_complete
open_bracket = refl

-- A backslash and a newline at the end leave the command open.
open_newline : is_complete (codes "abc\\\n") ≡ some false
unfolding is_complete
open_newline = refl

-- With a carriage return before the newline they do not.
open_return : is_complete (codes "abc\\\r\n") ≡ some true
unfolding is_complete
open_return = refl

scan_script-is_complete_example :
    (b : Bool) × (is_complete (codes "puts [a]") ≡ some b)
    × (scan_script 9 (codes "puts [a]") ≡ some b)
scan_script-is_complete_example = scan_script-is_complete (codes "puts [a]") 9 (omega arith)
