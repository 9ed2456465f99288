-- ===== src/Text.antt =====
-- src/util/StringUtils.h and src/util/FixedStr.h: ASCII text and copies into fixed arrays. A byte
-- that is not ASCII is above 127 here and negative in the source's `char`; neither lies in A-Z.
pub mod Search
pub mod Copy
pub mod Examples
use redscope.Base.{
  ℕ, ◌+◌, ◌-◌, min, Bool, true, false, ◌&&◌, Option, none, some, [], ◌∷◌, map, leb, ◌==◌,
  if◌then◌else◌, Bytes, CStr, take,
}

unfoldable pub to_lower_ascii : ℕ → ℕ
to_lower_ascii c = if leb b'A' c && leb c b'Z' then c - b'A' + b'a' else c

-- The two loops stop at the first difference or at the end of either text.
unfoldable pub iequals_bytes : Bytes → Bytes → Bool
iequals_bytes [] [] = true
iequals_bytes (a ∷ xs) (b ∷ ys) = to_lower_ascii a == to_lower_ascii b && iequals_bytes xs ys
iequals_bytes _ _ = false

unfoldable pub iequals_ascii : CStr → CStr → Bool
unfolding iequals_bytes
iequals_ascii (some a) (some b) = iequals_bytes a b
iequals_ascii _ _ = false

-- What the inner loop finds at one place of the haystack: its end, a difference, or the needle.
pub data Probe : Type 0 where
  ended differs found : Probe

unfoldable pub probe : Bytes → Bytes → Probe
probe h [] = found
probe [] (n ∷ ns) = ended
probe (h ∷ hs) (n ∷ ns) = if to_lower_ascii h == to_lower_ascii n then probe hs ns else differs

abbrev pub verdict : Probe → Bool → Bool
verdict Probe.ended rest = false
verdict Probe.differs rest = rest
verdict Probe.found rest = true

-- The outer loop, with its `return false` where the haystack ends within the needle.
unfoldable pub icontains_bytes : Bytes → Bytes → Bool
icontains_bytes [] n = false
icontains_bytes (h ∷ hs) n = verdict (probe (h ∷ hs) n) (icontains_bytes hs n)

unfoldable pub icontains_ascii : CStr → CStr → Bool
unfolding icontains_bytes probe
icontains_ascii (some h) (some (n ∷ ns)) = icontains_bytes h (n ∷ ns)
icontains_ascii _ _ = false

-- The loop of `LowerToAscii` for a destination of `cap` bytes, its NUL included.
unfoldable pub lower_bytes : ℕ → Bytes → Bytes
lower_bytes cap s = map to_lower_ascii (take (cap - 1) s)

-- `none` leaves the destination alone; else its text.
unfoldable pub lower_to_ascii : CStr → ℕ → Option Bytes
unfolding lower_bytes
lower_to_ascii src cap =
    if cap == 0 then none else elim src [ none ↦ some [] | some s ↦ some (lower_bytes cap s) ]

unfoldable pub copy_fixed : ℕ → CStr → Option Bytes
copy_fixed cap src =
    if cap == 0 then none else elim src [ none ↦ some [] | some s ↦ some (take (cap - 1) s) ]

-- The source bytes and their count, which need not end at a NUL.
unfoldable pub copy_fixed_n : ℕ → CStr → ℕ → Option Bytes
copy_fixed_n cap src src_len =
    if cap == 0
    then none
    else elim src [ none ↦ some [] | some s ↦ some (take (min (cap - 1) src_len) s) ]
