-- ===== src/WrapChain/Scan.antt =====
-- src/snapshot/WrapChain.cpp, `ScanFile` and the two parsers of lines: the layers that a script holds.
use redscope.Base.{
  ℕ, ◌+◌, ◌-◌, ◌%◌, ◌^◌, Bool, true, false, not, ◌&&◌, ◌||◌, Option, none, some, List, [], ◌∷◌,
  ◌++◌, leb, ◌==◌, if◌then◌else◌, Bytes, drop, codes,
}
use redscope.Stream.{skip_while, take_while, trim_by, begins, is_empty}
use redscope.Stream.{getlines, starts_with}
use redscope.WrapChain.{
  is_whitespace, is_blank, strip_comments, build_method_key, PendingLayer, WrapChainTable,
  build_chains,
}

abbrev pub is_ident_start : ℕ → Bool
is_ident_start c = (leb b'A' c && leb c b'Z') || (leb b'a' c && leb c b'z') || c == b'_'

abbrev pub is_ident_char : ℕ → Bool
is_ident_char c = is_ident_start c || (leb b'0' c && leb c b'9')

-- What `c_str` shows of a line.
unfoldable pub until_nul : Bytes → Bytes
until_nul [] = []
until_nul (c ∷ s) = let rest = until_nul s in if c == 0 then [] else c ∷ rest

-- `strstr`: the text from the first occurrence on.
unfoldable pub strstr : Bytes → Bytes → Option Bytes
unfolding starts_with
strstr [] needle = if starts_with needle [] then some [] else none
strstr (c ∷ s) needle =
    let later = strstr s needle in if starts_with needle (c ∷ s) then some (c ∷ s) else later

unfoldable pub all_of : (ℕ → Bool) → Bytes → Bool
all_of test [] = true
all_of test (c ∷ s) = test c && all_of test s

-- `Trim`.
unfoldable pub trim : Bytes → Bytes
unfolding trim_by
trim s = trim_by is_whitespace s

abbrev pub and_then : ℕ → Option Bytes → Option Bytes
and_then c none = none
and_then c (some s) = some (c ∷ s)

-- The text up to the bracket that closes the `depth` open ones.
unfoldable pub closing : ℕ → Bytes → Option Bytes
closing depth [] = none
closing depth (c ∷ s) =
    let deeper = closing (depth + 1) s in
    let out = closing (depth - 1) s in
    let on = closing depth s in
    if c == b'('
    then and_then c deeper
    else if c == b')'
    then if depth == 1 then some [] else and_then c out
    else and_then c on

abbrev pub wrapped_class : Option Bytes → Option Bytes
wrapped_class none = none
wrapped_class (some inner) =
    let name = trim inner in
    if is_empty name then none else if all_of is_ident_char name then some name else none

-- From the end of the annotation's name on.
unfoldable pub parse_argument : Bytes → Option Bytes
unfolding skip_while closing trim all_of
parse_argument after =
    let p = skip_while is_whitespace after in
    if begins is_ident_char after
    then none
    else if begins (λ c. c == b'(') p
    then wrapped_class (closing 1 (drop 1 p))
    else none

unfoldable pub parse_wrap_annotation : Bytes → Option Bytes
unfolding strstr parse_argument
parse_wrap_annotation line = elim (strstr line (codes "@wrapMethod")) [
  | none ↦ none
  | some needle ↦ parse_argument (drop 11 needle)
]

abbrev pub ends_word : Bytes → Bool
ends_word [] = true
ends_word (c ∷ s) = is_whitespace c

-- What follows the first `func` that stands as a word; `inside` tells that the byte before is part of a
-- name.
unfoldable pub find_func : Bool → Bytes → Option Bytes
unfolding starts_with
find_func inside [] = none
find_func inside (c ∷ s) =
    let later = find_func (is_ident_char c) s in
    if starts_with (codes "func") (c ∷ s) && not inside && ends_word (drop 4 (c ∷ s))
    then some (drop 4 (c ∷ s))
    else later

unfoldable pub parse_name : Bytes → Option Bytes
unfolding skip_while take_while
parse_name after =
    let p = skip_while is_whitespace after in
    let rest = skip_while is_whitespace (skip_while is_ident_char p) in
    if begins is_ident_start p && begins (λ c. c == b'(') rest
    then some (take_while is_ident_char p)
    else none

unfoldable pub parse_func_declaration : Bytes → Option Bytes
unfolding find_func parse_name
parse_func_declaration line = elim (find_func false line) [
  | none ↦ none
  | some after ↦ parse_name after
]

-- A script below the folder, the mod that it is attributed to, and its bytes, if it can be read.
pub record ScriptFile : Type 0 where
  pub mod_name : Bytes
  pub rel_file : Bytes
  pub text : Option Bytes

pub record ScanState : Type 0 where
  pub pending_class : Bytes
  pub pending_line : ℕ

-- A class that is empty stays so.
abbrev pub noted : ℕ → ScanState → Option Bytes → ScanState
noted line_number st none = record st { pending_class = [] }
noted line_number st (some cls) = record { pending_class = cls; pending_line = line_number }

unfoldable pub annotate : Bytes → ℕ → ScanState → ScanState
unfolding parse_wrap_annotation
annotate line line_number st = noted line_number st (parse_wrap_annotation line)

abbrev pub layer_at : ScriptFile → ScanState → Option Bytes → Option PendingLayer
layer_at f st none = none
layer_at f st (some key) = some (record {
  method_key = key;
  mod_name = f.mod_name;
  rel_file = f.rel_file;
  line_number = st.pending_line;
})

abbrev pub declared :
    ScriptFile → Bytes → ℕ → ScanState → Option Bytes → ScanState × Option PendingLayer
declared f line line_number st none = (annotate line line_number st, none)
declared f line line_number st (some meth) = (
  record st { pending_class = [] },
  layer_at f st (build_method_key (some st.pending_class) (some meth) 80),
)

-- One round of the loop on a line that is not blank.
unfoldable pub scan_line : ScriptFile → Bytes → ℕ → ScanState → ScanState × Option PendingLayer
unfolding annotate
scan_line f line line_number st =
    if is_empty st.pending_class
    then (annotate line line_number st, none)
    else declared f line line_number st (parse_func_declaration line)

abbrev pub emit : Option PendingLayer → List PendingLayer → List PendingLayer
emit none rest = rest
emit (some p) rest = p ∷ rest

unfoldable pub scan_lines : ScriptFile → List Bytes → ℕ → Bool → ScanState → List PendingLayer
unfolding scan_line
scan_lines f [] n inside st = []
scan_lines f (raw ∷ ls) n inside st =
    let line_number = (n + 1) % 2 ^ 32 in
    let stripped = strip_comments raw inside in
    let line = until_nul stripped.0 in
    let r : ScanState × Option PendingLayer =
      if is_blank stripped.0 then (st, none) else scan_line f line line_number st in
    emit r.1 (scan_lines f ls line_number stripped.1 r.0)

abbrev pub fresh : ScanState
fresh = record { pending_class = []; pending_line = 0 }

abbrev pub scan_text : ScriptFile → Option Bytes → List PendingLayer
scan_text f none = []
scan_text f (some text) = scan_lines f (getlines text) 0 false fresh

unfoldable pub scan_file : ScriptFile → List PendingLayer
unfolding scan_lines getlines
scan_file f = scan_text f f.text

unfoldable pub scan_all : List ScriptFile → List PendingLayer
unfolding scan_file
scan_all [] = []
scan_all (f ∷ fs) = scan_file f ++ scan_all fs

-- `CaptureWrapChains` on the scripts below the folder, in the order of the walk.
unfoldable pub capture_wrap_chains : List ScriptFile → WrapChainTable
unfolding scan_all build_chains
capture_wrap_chains files = build_chains (scan_all files)
