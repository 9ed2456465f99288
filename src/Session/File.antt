-- ===== src/Session/File.antt =====
-- src/snapshot/SessionHistory.cpp, `ReadSessionPrevious` and `WriteSessionPrevious`: the file that a
-- session leaves. What `std::getline` and `strtoll` do with the bytes is written out.
use redscope.Base.{
  Bool, true, false, Option, none, some, List, [], ◌∷◌, ◌++◌, ◌==◌, if◌then◌else◌, Bytes, str_eq,
  codes,
}
use redscope.Base.Int.{ℤ, pos}
use redscope.Format.{decimal_ℤ, strtoll}
use redscope.Stream.{is_empty, getlines, cut_at, starts_with}
use redscope.Session.{ModSnapshot, sort_by_name}

-- What opening the path gives: no file, a file that cannot be opened, or its bytes.
pub data SavedFile : Type 0 where
  absent : SavedFile
  unreadable : SavedFile
  saved : Bytes → SavedFile

pub record PriorSession : Type 0 where
  pub present : Bool
  pub parsed_ok : Bool
  pub timestamp_unix : ℤ
  pub mods : List ModSnapshot

abbrev pub no_session : PriorSession
no_session = record { present = false; parsed_ok = false; timestamp_unix = pos 0; mods = [] }

abbrev pub unparsed : PriorSession
unparsed = record no_session { present = true }

abbrev pub magic : Bytes
magic = codes "REDSCOPE_SESSION_PREVIOUS v1"

abbrev pub stamp_tag : Bytes
stamp_tag = codes "timestampUnix="

-- `StripCR`.
unfoldable pub drop_cr : Bytes → Bytes
drop_cr [] = []
drop_cr (c ∷ []) = if c == 13 then [] else c ∷ []
drop_cr (c ∷ d ∷ s) = c ∷ drop_cr (d ∷ s)

abbrev pub read_stamp : Option (Bytes × Bytes) → PriorSession → PriorSession
read_stamp none out = out
read_stamp (some (a, b)) out = record out { timestamp_unix = strtoll b }

abbrev pub read_mod : Option (Bytes × Bytes) → PriorSession → PriorSession
read_mod none out = out
read_mod (some (a, b)) out =
    if is_empty a
    then out
    else record out { mods = out.mods ++ (record { name = a; version = b } ∷ []) }

-- One round of the loop over the lines; a line that begins with the tag has a `=`.
unfoldable pub read_line : Bytes → PriorSession → PriorSession
unfolding cut_at starts_with
read_line line out =
    if is_empty line
    then out
    else if starts_with (b'#' ∷ []) line
    then out
    else if starts_with stamp_tag line
    then read_stamp (cut_at b'=' line) out
    else read_mod (cut_at b'|' line) out

unfoldable pub read_lines : List Bytes → PriorSession → PriorSession
unfolding read_line drop_cr
read_lines [] out = out
read_lines (l ∷ ls) out = read_lines ls (read_line (drop_cr l) out)

abbrev pub finish_read : PriorSession → PriorSession
finish_read out = record out { mods = sort_by_name out.mods; parsed_ok = true }

unfoldable pub read_all : List Bytes → PriorSession
unfolding read_lines drop_cr
read_all [] = unparsed
read_all (l ∷ ls) =
    if str_eq (drop_cr l) magic then finish_read (read_lines ls unparsed) else unparsed

unfoldable pub read_session_previous : SavedFile → PriorSession
unfolding read_all getlines
read_session_previous absent = no_session
read_session_previous unreadable = unparsed
read_session_previous (saved text) = read_all (getlines text)

unfoldable pub write_mods : List ModSnapshot → Bytes
write_mods [] = []
write_mods (m ∷ ms) =
    let rest = write_mods ms in
    if is_empty m.name then rest else m.name ++ (b'|' ∷ m.version ++ (10 ∷ rest))

-- The bytes that `WriteSessionPrevious` writes.
unfoldable pub write_session_previous : ℤ → List ModSnapshot → Bytes
unfolding write_mods sort_by_name
write_session_previous timestamp_unix current =
    magic
    ++ (10 ∷ stamp_tag ++ decimal_ℤ timestamp_unix ++ (10 ∷ write_mods (sort_by_name current)))
