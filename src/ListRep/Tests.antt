-- ===== src/ListRep/Tests.antt =====
-- Lists written and read, and the theorems at concrete inputs.
use rtcl.Prelude.{◌≡◌, ◌≢◌, refl, List, [], ◌∷◌, All, codes, arith}
use rtcl.ListRep.Quote.{Bytes, serialize_list}
use rtcl.ListRep.Parse.{
  ok, err, braces, quotes, junk, unmatched, out_of_fuel, past_end, parse_elements,
}
use rtcl.ListRep.Utf8.{IsUtf8, done, one}
use rtcl.ListRep.RoundTrip.{parse_elements-serialize_list}
use rtcl.ListRep.Total.{parse_elements-total}

abbrev items : List Bytes
items = codes "#a" ∷ codes "b c" ∷ [] ∷ codes "}" ∷ []

written : serialize_list items ≡ codes "{#a} {b c} {} \\}"
unfolding serialize_list
written = refl

read_junk : parse_elements (codes "{a}b") ≡ err (junk braces (codes "b"))
unfolding parse_elements
read_junk = refl

read_unmatched : parse_elements (codes "x {a") ≡ err (unmatched braces)
unfolding parse_elements
read_unmatched = refl

read_quotes : parse_elements (codes "\"a b") ≡ err (unmatched quotes)
unfolding parse_elements
read_quotes = refl

items-IsUtf8 : All IsUtf8 items
items-IsUtf8 = (
  one (omega arith) (one (omega arith) done),
  (
    one (omega arith) (one (omega arith) (one (omega arith) done)),
    (done, (one (omega arith) done, tt)),
  ),
)

parse_elements-serialize_list_example : parse_elements (serialize_list items) ≡ ok items
parse_elements-serialize_list_example = parse_elements-serialize_list items items-IsUtf8

parse_elements-total_example :
    (parse_elements (codes "{a \\") ≢ err out_of_fuel)
    × (parse_elements (codes "{a \\") ≢ err past_end)
parse_elements-total_example = parse_elements-total (codes "{a \\")
