-- ===== src/LogTailer/Lines.antt =====
-- src/logs/LogTailer.cpp, `SplitLines`, `Tail` and `WindowAround`. The text of a file is an argument:
-- none where it could not be read.
pub mod LastLines
pub mod Window
use redscope.Base.{
  ℕ, zero, suc, ◌+◌, ◌-◌, ◌%◌, Bool, true, false, not, ◌&&◌, ◌||◌, Option, none, some, List, [],
  ◌∷◌, ◌++◌, ltb, ◌==◌, if◌then◌else◌, Bytes, length, get_elem?, set, drop, ◌>>=◌,
}
use redscope.Base.Int.{ℤ, pos, ◌+ℤ◌, ◌-ℤ◌, ltb_ℤ}

abbrev is_empty : Bytes → Bool
is_empty [] = true
is_empty (c ∷ s) = false

-- `if (end > start && text[end - 1] == '\r') --end;`
unfoldable pub strip_cr : Bytes → Bytes
strip_cr [] = []
strip_cr (c ∷ []) = if c == 13 then [] else c ∷ []
strip_cr (c ∷ d ∷ s) = c ∷ strip_cr (d ∷ s)

-- The loop at `i`, with the text from `start` to `i`.
unfoldable pub lines_from : Bytes → Bytes → List Bytes
unfolding strip_cr
lines_from line [] = if is_empty line then [] else strip_cr line ∷ []
lines_from line (c ∷ text) =
    let next = strip_cr line ∷ lines_from [] text in
    let on = lines_from (line ++ (c ∷ [])) text in if c == 10 then next else on

unfoldable pub split_lines : Bytes → List Bytes
unfolding lines_from
split_lines text = lines_from [] text

-- The ring of `Tail`.
pub record Ring : Type 0 where
  pub slots : List Bytes
  pub head : ℕ
  pub wrapped : Bool

abbrev pub new_ring : Ring
new_ring = record { slots = []; head = 0; wrapped = false }

-- The lambda `push`.
unfoldable pub push_line : ℕ → Bytes → Ring → Ring
push_line max_lines line r =
    if ltb (length r.slots) max_lines
    then record r { slots = r.slots ++ (line ∷ []) }
    else record { slots = set r.slots r.head line; head = (r.head + 1) % max_lines; wrapped = true }

-- The loop of `Tail`, which pushes each line as soon as it ends.
unfoldable pub push_lines : ℕ → Bytes → Bytes → Ring → Ring
unfolding push_line strip_cr
push_lines max_lines line [] r = if is_empty line then r else push_line max_lines (strip_cr line) r
push_lines max_lines line (c ∷ text) r =
    let next = push_lines max_lines [] text (push_line max_lines (strip_cr line) r) in
    let on = push_lines max_lines (line ++ (c ∷ [])) text r in if c == 10 then next else on

-- `ring[(head + k) % maxLines]` for the next `n` values of `k`; none is a read out of range.
unfoldable pub read_ring : ℕ → ℕ → ℕ → List Bytes → Option (List Bytes)
read_ring zero k max_lines slots = some []
read_ring (suc n) k max_lines slots = do
  line ← get_elem? slots (k % max_lines)
  rest ← read_ring n (k + 1) max_lines slots
  some (line ∷ rest)

unfoldable pub unroll : ℕ → Ring → Option (List Bytes)
unfolding read_ring
unroll max_lines r =
    if r.wrapped then read_ring max_lines r.head max_lines r.slots else some r.slots

unfoldable pub tail : Option Bytes → ℕ → Option (List Bytes)
unfolding push_lines unroll
tail none max_lines = some []
tail (some text) max_lines =
    if max_lines == 0 then some [] else unroll max_lines (push_lines max_lines [] text new_ring)

-- The last `n` elements.
abbrev pub last_of {ℓ} : {A : Type ℓ} → ℕ → List A → List A
last_of n xs = drop (length xs - n) xs

-- `stamp` is `ParseLeadingTimestamp`: `sscanf`, and `mktime` in the zone of the machine.
module _ (stamp : Bytes → Option ℤ) where
  -- The loop over the lines with `currentInWindow` and `seenAnyTimestamp`.
  unfoldable pub keep : ℤ → ℤ → Bool → Bool → List Bytes → List Bytes
  keep lo hi within seen [] = []
  keep lo hi within seen (ln ∷ lines) = elim (stamp ln) [
    | some ts ↦
        let now = not (ltb_ℤ ts lo) && not (ltb_ℤ hi ts) in
        let rest = keep lo hi now true lines in if now then ln ∷ rest else rest
    | none ↦ let rest = keep lo hi within seen lines in if seen && within then ln ∷ rest else rest
  ]

  -- The last lines of those kept, where there are more than `max_lines`.
  unfoldable pub window_around : Option Bytes → ℤ → ℤ → ℕ → List Bytes
  unfolding keep split_lines
  window_around none crash_time window_sec max_lines = []
  window_around (some text) crash_time window_sec max_lines =
      let kept =
        keep (crash_time -ℤ window_sec) (crash_time +ℤ window_sec) false false (split_lines text) in
      if max_lines == 0 || ltb_ℤ window_sec (pos 0)
      then []
      else if ltb max_lines (length kept)
      then last_of max_lines kept
      else kept
