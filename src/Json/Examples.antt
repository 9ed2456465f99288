-- ===== src/Json/Examples.antt =====
-- Tests of the JSON that is written by hand, and its theorems at concrete inputs.
use redscope.Base.{◌+◌, ◌^◌, ◌≡◌, refl, none, some, [], ◌∷◌, ◌++◌, Bytes, codes}
use redscope.Base.Int.{pos, negsuc}
use redscope.Format.{decimal, digits_onto, hex}
use redscope.Json.{hex4, escaped, escape, json_text, print_u, print_lld}
use redscope.Json.Accept.{value, after, step, run}
use redscope.Json.Unescape.{decode_text, decode_text-json_text}

abbrev archive_path : Bytes
archive_path = codes "a\\b \"c\"" ++ (1 ∷ 10 ∷ [])

path_text : json_text archive_path ≡ codes "\"a\\\\b \\\"c\\\"\\u0001\\n\""
unfolding json_text escape escaped hex4 hex digits_onto
path_text = refl

numbers :
    (print_u (2 ^ 32 + 5) ≡ codes "5")
    × (print_lld (pos 120) ≡ codes "120")
    × (print_lld (negsuc 0) ≡ codes "-1")
unfolding print_u print_lld decimal digits_onto
numbers = (refl, refl, refl)

-- The reader refuses a comma before a bracket, a zero before a number and a byte of control in a text.
refused :
    (run (codes "[1, ]") (value, []) ≡ none)
    × (run (codes "[01]") (value, []) ≡ none)
    × (run (b'"' ∷ 10 ∷ []) (value, []) ≡ none)
unfolding run step
refused = (refl, refl, refl)

accepted : run (codes "{ \"a\": [1, -20, true], \"b\": {} }\n") (value, []) ≡ some (after, [])
unfolding run step
accepted = refl

decode_text-json_text_example : decode_text (json_text archive_path) ≡ some archive_path
decode_text-json_text_example = decode_text-json_text archive_path
