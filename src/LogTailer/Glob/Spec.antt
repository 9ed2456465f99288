-- ===== src/LogTailer/Glob/Spec.antt =====
-- What a glob pattern means: a star stands for any text, a question mark for any byte, and any
-- other byte for itself, whatever its case.
use redscope.Base.{ℕ, Bool, true, false, ◌&&◌, ◌||◌, [], ◌∷◌, ◌==◌, if◌then◌else◌, Bytes}
use redscope.LogTailer.Glob.{fits}

abbrev pub any_suffix : (Bytes → Bool) → Bytes → Bool
any_suffix f [] = f []
any_suffix f (c ∷ n) = f (c ∷ n) || any_suffix f n

abbrev first_fits : ℕ → (Bytes → Bool) → Bytes → Bool
first_fits q rest [] = false
first_fits q rest (c ∷ n) = fits q c && rest n

unfoldable pub accepts : Bytes → Bytes → Bool
accepts [] [] = true
accepts [] (c ∷ n) = false
accepts (q ∷ p) n = if q == b'*' then any_suffix (accepts p) n else first_fits q (accepts p) n
