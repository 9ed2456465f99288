-- ===== src/Text/Examples.antt =====
-- Tests of the text helpers, and their theorems at concrete inputs.
use redscope.Base.{◌≡◌, refl, ◌≢◌, ◌↔◌, true, some, [], Bytes, codes}
use redscope.Text.{icontains_ascii, to_lower_ascii}
use redscope.Text.Search.{Contains, icontains_ascii_iff}

finds : icontains_ascii (some (codes "xxCClass::executeY")) (some (codes "cclass::Execute")) ≡ true
unfolding icontains_ascii to_lower_ascii
finds = refl

icontains_ascii_iff_example : (icontains_ascii (some (codes "aBc")) (some (codes "b")) ≡ true) ↔ (
    (t u : Bytes) × (some (codes "aBc") ≡ some t)
    × (some (codes "b") ≡ some u)
    × (u ≢ [])
    × Contains t u)
icontains_ascii_iff_example = icontains_ascii_iff (some (codes "aBc")) (some (codes "b"))
