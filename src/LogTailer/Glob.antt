-- ===== src/LogTailer/Glob.antt =====
-- src/logs/LogTailer.cpp, `GlobMatch`: the pattern matcher with one point to go back to.
pub mod Spec
pub mod Correct
use redscope.Base.{
  ℕ, zero, suc, ◌+◌, ◌*◌, Bool, true, false, ◌&&◌, ◌||◌, Option, none, some, [], ◌∷◌, ◌==◌,
  if◌then◌else◌, Bytes, length,
}
use redscope.Text.{to_lower_ascii}

-- `pStar + 1` and `nMark`: the pattern behind the last star, and the name from where that star
-- has matched so far. A pointer into a text is the text from there on.
abbrev pub Mark : Type 0
Mark = Option (Bytes × Bytes)

-- `*pattern == '?' || tolower(*pattern) == tolower(*name)`.
abbrev pub fits : ℕ → ℕ → Bool
fits q c = q == b'?' || to_lower_ascii q == to_lower_ascii c

-- `while (*pattern == '*') ++pattern; return *pattern == '\0';`
unfoldable pub only_stars : Bytes → Bool
only_stars [] = true
only_stars (q ∷ p) = q == b'*' && only_stars p

-- The loop, a round for each unit of fuel; `none` says that the fuel ran out. The last argument
-- of the two helpers is the loop with the fuel that is left.
abbrev back : Mark → (Bytes → Bytes → Mark → Option Bool) → Option Bool
back none loop = some false
back (some (sp, [])) loop = some false
back (some (sp, m ∷ ms)) loop = loop sp ms (some (sp, ms))

abbrev round : Bytes → ℕ → Bytes → Mark → (Bytes → Bytes → Mark → Option Bool) → Option Bool
round [] c n st loop = back st loop
round (q ∷ p) c n st loop =
    if q == b'*'
    then loop p (c ∷ n) (some (p, c ∷ n))
    else if fits q c
    then loop p n st
    else back st loop

unfoldable pub match_loop : ℕ → Bytes → Bytes → Mark → Option Bool
unfolding only_stars
match_loop zero p n st = none
match_loop (suc f) p [] st = some (only_stars p)
match_loop (suc f) p (c ∷ n) st = round p c n st (match_loop f)

-- Rounds that suffice for these texts.
abbrev pub rounds : Bytes → Bytes → ℕ
rounds p n = (length n + 1) * (length p + length n + 1)

unfoldable pub glob_match : Bytes → Bytes → Option Bool
unfolding match_loop
glob_match p n = match_loop (rounds p n) p n none
