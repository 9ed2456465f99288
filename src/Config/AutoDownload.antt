-- ===== src/Config/AutoDownload.antt =====
-- src/breadcrumbs/BreadcrumbApi.cpp, `WriteAutoDownloadIni`: the setting `auto_download` is changed in
-- the text of the file, line by line.
pub mod Lines
pub mod RoundTrip
use redscope.Base.{
  ℕ, Bool, false, ◌&&◌, ◌||◌, Option, none, some, List, [], ◌∷◌, ◌++◌, ◌==◌, if◌then◌else◌, Bytes,
  str_eq, drop, codes,
}
use redscope.Stream.{getlines, cut_at, starts_with, skip_while, begins}

-- The bytes that `find_first_not_of(" \t")` skips.
abbrev pub is_indent : ℕ → Bool
is_indent c = c == 32 || c == 9

abbrev pub new_line : Bool → Bytes
new_line enabled = codes "auto_download = " ++ (if enabled then codes "true" else codes "false")

abbrev pub part_before : Option (Bytes × Bytes) → Bytes
part_before none = []
part_before (some (a, b)) = a

-- The section that a line opens, if it begins with a bracket.
unfoldable pub opened_section : Bytes → Option Bytes
unfolding skip_while cut_at
opened_section l =
    let s = skip_while is_indent l in
    if begins (λ c. c == b'[') s then some (part_before (cut_at b']' (drop 1 s))) else none

abbrev pub is_setting : Bytes → Bytes → Bool
is_setting section l =
    str_eq section (codes "symbols") && starts_with (codes "auto_download") (skip_while is_indent l)

-- The loop's variables are `section` and `done`; a line is changed or kept.
abbrev pub change_line : Bool → Option Bytes → Bytes → Bytes → Bytes
change_line enabled (some name) section l = l
change_line enabled none section l = if is_setting section l then new_line enabled else l

abbrev pub next_section : Option Bytes → Bytes → Bytes
next_section (some name) section = name
next_section none section = section

abbrev pub is_changed : Option Bytes → Bytes → Bytes → Bool
is_changed (some name) section l = false
is_changed none section l = is_setting section l

unfoldable pub change_lines : Bool → List Bytes → Bytes → List Bytes
unfolding opened_section starts_with
change_lines enabled [] section = []
change_lines enabled (l ∷ ls) section =
    change_line enabled (opened_section l) section l
    ∷ change_lines enabled ls (next_section (opened_section l) section)

-- `done` at the end.
unfoldable pub is_done : List Bytes → Bytes → Bool
unfolding opened_section starts_with
is_done [] section = false
is_done (l ∷ ls) section =
    is_changed (opened_section l) section l || is_done ls (next_section (opened_section l) section)

unfoldable pub put_lines : List Bytes → Bytes
put_lines [] = []
put_lines (l ∷ ls) = l ++ (10 ∷ put_lines ls)

-- The bytes of the file afterwards; no file is like an empty one.
unfoldable pub write_auto_download : Bool → Bytes → Bytes
unfolding getlines change_lines is_done put_lines
write_auto_download enabled text =
    let lines = getlines text in
    put_lines (
      change_lines enabled lines []
      ++ (if is_done lines [] then [] else codes "[symbols]" ∷ new_line enabled ∷ []))
