-- ===== src/Stream.antt =====
-- Parts of the language's library that several files of src use on texts: `std::getline`, `find`,
-- `rfind(tag, 0)` and the loops that skip bytes of a kind.
pub mod Laws
use redscope.Base.{
  ℕ, Bool, true, false, ◌&&◌, ◌||◌, Option, none, some, List, [], ◌∷◌, leb, ◌==◌, if◌then◌else◌,
  Bytes,
}

abbrev pub is_empty : Bytes → Bool
is_empty [] = true
is_empty (c ∷ s) = false

abbrev pub put_first : ℕ → List Bytes → List Bytes
put_first c [] = (c ∷ []) ∷ []
put_first c (l ∷ ls) = (c ∷ l) ∷ ls

-- The lines that calls of `std::getline` give until one fails.
unfoldable pub getlines : Bytes → List Bytes
getlines [] = []
getlines (c ∷ s) = let rest = getlines s in if c == 10 then [] ∷ rest else put_first c rest

abbrev pub before_and : ℕ → Option (Bytes × Bytes) → Option (Bytes × Bytes)
before_and c none = none
before_and c (some (a, b)) = some (c ∷ a, b)

-- What stands before and after the first `sep`, which `find` looks for.
unfoldable pub cut_at : ℕ → Bytes → Option (Bytes × Bytes)
cut_at sep [] = none
cut_at sep (c ∷ s) = let rest = cut_at sep s in if c == sep then some ([], s) else before_and c rest

-- `line.rfind(tag, 0) == 0`.
unfoldable pub starts_with : Bytes → Bytes → Bool
starts_with [] s = true
starts_with (t ∷ tag) [] = false
starts_with (t ∷ tag) (c ∷ s) = t == c && starts_with tag s

-- The text from the first byte on that the test refuses, and the text up to there.
unfoldable pub skip_while : (ℕ → Bool) → Bytes → Bytes
skip_while test [] = []
skip_while test (c ∷ s) = let rest = skip_while test s in if test c then rest else c ∷ s

unfoldable pub take_while : (ℕ → Bool) → Bytes → Bytes
take_while test [] = []
take_while test (c ∷ s) = let rest = take_while test s in if test c then c ∷ rest else []

-- Without the bytes at the end that the test accepts.
unfoldable pub strip_end : (ℕ → Bool) → Bytes → Bytes
strip_end test [] = []
strip_end test (c ∷ s) =
    let rest = strip_end test s in if is_empty rest && test c then [] else c ∷ rest

unfoldable pub trim_by : (ℕ → Bool) → Bytes → Bytes
unfolding skip_while strip_end
trim_by test s = strip_end test (skip_while test s)

abbrev pub begins : (ℕ → Bool) → Bytes → Bool
begins test [] = false
begins test (c ∷ s) = test c

-- `std::isspace`.
abbrev pub is_space : ℕ → Bool
is_space c = c == 32 || (leb 9 c && leb c 13)
