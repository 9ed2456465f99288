-- ===== src/LogTailer/Examples.antt =====
-- Tests of the log reader, and its theorems at concrete inputs.
use redscope.Base.{
  ◌≡◌, refl, true, Option, none, some, [], ◌∷◌, ◌++◌, arith, if◌then◌else◌, Bytes, length, codes,
}
use redscope.LogTailer.Glob.{glob_match}
use redscope.LogTailer.Glob.Spec.{accepts}
use redscope.LogTailer.Glob.Correct.{glob_match-accepts}
use redscope.Base.Int.{ℤ, pos, ltb_ℤ, ◌-ℤ◌, ◌+ℤ◌}
use redscope.LogTailer.Lines.{split_lines, tail, last_of, window_around}
use redscope.LogTailer.Lines.LastLines.{tail-last_of}
use redscope.LogTailer.Lines.Window.{in_window, dated, window_around-dated}
use redscope.Text.{to_lower_ascii}

backs_up : glob_match (codes "*ab?.LOG") (codes "xaab1.log") ≡ some true
unfolding glob_match to_lower_ascii
backs_up = refl

glob_match-accepts_example :
    glob_match (codes "red4ext-*.log") (codes "RED4ext-1.log")
    ≡ some (accepts (codes "red4ext-*.log") (codes "RED4ext-1.log"))
glob_match-accepts_example = glob_match-accepts (codes "red4ext-*.log") (codes "RED4ext-1.log")

-- Three lines, one with a carriage return, and no newline at the end.
abbrev text : Bytes
text = codes "one" ++ (13 ∷ 10 ∷ codes "two") ++ (10 ∷ codes "three")

two_last : tail (some text) 2 ≡ some (codes "two" ∷ codes "three" ∷ [])
unfolding tail
two_last = refl

tail-last_of_example : tail (some text) 2 ≡ some (last_of 2 (split_lines text))
tail-last_of_example = tail-last_of text 2 (omega arith)

-- Every line is stamped with its length.
abbrev stamp : Bytes → Option ℤ
stamp ln = some (pos (length ln))

window_around-dated_example : window_around stamp (some text) (pos 6) (pos 1) 3 ≡ (
    if ltb_ℤ (pos 1) (pos 0)
    then []
    else last_of 3
        (in_window (pos 6 -ℤ pos 1) (pos 6 +ℤ pos 1) (dated stamp none (split_lines text))))
window_around-dated_example = window_around-dated stamp text (pos 6) (pos 1) 3
