-- ===== src/CrashArchive.antt =====
-- src/breadcrumbs/CrashArchive.cpp: the list of crashes that scripts can read. What simdjson finds in the
-- file of a crash, and the files of the folder with their times, are arguments.
pub mod Valid
pub mod Examples
use redscope.Base.{
  ℕ, ◌+◌, ◌-◌, Bool, true, ◌&&◌, ◌||◌, Option, none, some, List, [], ◌∷◌, ◌++◌, ltb, ◌==◌,
  if◌then◌else◌, Bytes, length, take, replicate, codes,
}
use redscope.Base.Int.{ℤ, pos, negsuc}
use redscope.Base.Sort.{sort}
use redscope.Format.{digits_onto}
use redscope.Json.{print_llu, json_bool}

abbrev pub low_digit : ℕ → ℕ
low_digit d = if ltb d 10 then b'0' + d else b'a' + (d - 10)

-- `%04x` of a byte.
unfoldable pub low_hex4 : ℕ → Bytes
unfolding digits_onto
low_hex4 c = let s = digits_onto 16 low_digit 16 c [] in replicate (4 - length s) b'0' ++ s

-- The switch of `AppendEscaped`.
unfoldable pub escape_byte : ℕ → Bytes
unfolding low_hex4
escape_byte c =
    if c == b'"'
    then b'\\' ∷ b'"' ∷ []
    else if c == b'\\'
    then b'\\' ∷ b'\\' ∷ []
    else if c == 10
    then b'\\' ∷ b'n' ∷ []
    else if c == 13
    then b'\\' ∷ b'r' ∷ []
    else if c == 9
    then b'\\' ∷ b't' ∷ []
    else if ltb c 32
    then b'\\' ∷ b'u' ∷ low_hex4 c
    else c ∷ []

unfoldable pub append_escaped : Bytes → Bytes
unfolding escape_byte
append_escaped [] = []
append_escaped (c ∷ s) = escape_byte c ++ append_escaped s

unfoldable pub append_json_str : Bytes → Bytes
unfolding append_escaped
append_json_str s = b'"' ∷ (append_escaped s ++ (b'"' ∷ []))

-- An element of `stackModules`; without a name it is passed over.
pub record StackModule : Type 0 where
  pub name : Option Bytes
  pub hits : ℕ
  pub kind : Bytes

-- What is found under the keys of a file; a text that is missing is empty. `unsigned_time` and
-- `signed_time` are the two readings of `crashTimeUnix`.
pub record CrashFields : Type 0 where
  pub crash_id : Bytes
  pub loose_id : Bytes
  pub crash_class : Bytes
  pub unsigned_time : Option ℕ
  pub signed_time : Option ℤ
  pub fault_name : Bytes
  pub fault_site_unreliable : Bool
  pub stack_modules : List StackModule

abbrev pub positive : Option ℤ → ℕ
positive (some (pos n)) = n
positive _ = 0

abbrev pub crash_time : Option ℕ → Option ℤ → ℕ
crash_time (some t) signed = t
crash_time none signed = positive signed

abbrev pub joined_more : List Bytes → Bytes
joined_more [] = []
joined_more (x ∷ xs) = b',' ∷ (x ++ joined_more xs)

-- The loops with `first` put a comma before each item but the first.
abbrev pub joined : List Bytes → Bytes
joined [] = []
joined (x ∷ xs) = x ++ joined_more xs

unfoldable pub module_text : Bytes → ℕ → Bytes → Bytes
unfolding append_json_str
module_text name hits kind =
    codes "{\"name\":"
    ++ (append_json_str name
        ++ (codes ",\"hits\":"
            ++ (print_llu hits ++ (codes ",\"kind\":" ++ (append_json_str kind ++ codes "}")))))

abbrev pub put_module : Option Bytes → ℕ → Bytes → List Bytes → List Bytes
unfolding module_text
put_module none hits kind rest = rest
put_module (some name) hits kind rest = module_text name hits kind ∷ rest

unfoldable pub module_texts : List StackModule → List Bytes
unfolding put_module
module_texts [] = []
module_texts (m ∷ ms) = put_module m.name m.hits m.kind (module_texts ms)

unfoldable pub fault_text : Bytes → Bytes
unfolding append_json_str
fault_text [] = codes "null"
fault_text (c ∷ s) = append_json_str (c ∷ s)

unfoldable pub summary_of : CrashFields → Bytes
unfolding append_json_str fault_text module_texts
summary_of f =
    codes "{\"crashId\":"
    ++ (append_json_str f.crash_id
        ++ (codes ",\"looseId\":"
            ++ (append_json_str f.loose_id
                ++ (codes ",\"crashTimeUnix\":"
                    ++ (print_llu (crash_time f.unsigned_time f.signed_time)
                        ++ (codes ",\"crashClass\":"
                            ++ (append_json_str f.crash_class
                                ++ (codes ",\"faultingModule\":"
                                    ++ (fault_text f.fault_name
                                        ++ (codes ",\"faultSiteUnreliable\":"
                                            ++ (json_bool f.fault_site_unreliable
                                                ++ (codes ",\"stackModules\":["
                                                    ++ (joined (module_texts f.stack_modules)
                                                        ++ codes "]}")))))))))))))

-- `ProjectCrashSummary`, of a file that simdjson reads or not.
unfoldable pub project_crash_summary : Option CrashFields → Bytes
unfolding summary_of
project_crash_summary none = []
project_crash_summary (some f) = summary_of f

abbrev is_blank_byte : ℕ → Bool
is_blank_byte c = c == b' ' || c == 9 || c == 13 || c == 10

unfoldable pub is_blank : Bytes → Bool
is_blank [] = true
is_blank (c ∷ s) = is_blank_byte c && is_blank s

unfoldable pub objects_left : List Bytes → List Bytes
unfolding is_blank
objects_left [] = []
objects_left (o ∷ os) = let rest = objects_left os in if is_blank o then rest else o ∷ rest

unfoldable pub build_crash_array : List Bytes → Bytes
unfolding objects_left
build_crash_array os = codes "[" ++ (joined (objects_left os) ++ codes "]")

-- A file `*.crash.json` with its time, and what is found in it, if it can be opened.
pub record CrashFile : Type 0 where
  pub time : ℕ
  pub content : Option (Option CrashFields)

abbrev pub is_newer : CrashFile → CrashFile → Bool
is_newer a b = ltb b.time a.time

-- `resize`; no limit where it is 0.
abbrev pub newest : ℕ → List CrashFile → List CrashFile
newest limit fs = if ltb 0 limit then take limit (sort is_newer fs) else sort is_newer fs

abbrev pub put_summary : Bytes → List Bytes → List Bytes
put_summary [] rest = rest
put_summary (c ∷ s) rest = (c ∷ s) ∷ rest

unfoldable pub put_content : Option (Option CrashFields) → List Bytes → List Bytes
unfolding project_crash_summary
put_content none rest = rest
put_content (some c) rest = put_summary (project_crash_summary c) rest

unfoldable pub summaries_of : List CrashFile → List Bytes
unfolding put_content
summaries_of [] = []
summaries_of (f ∷ fs) = put_content f.content (summaries_of fs)

unfoldable pub read_all_crashes_json : ℕ → List CrashFile → Bytes
unfolding summaries_of build_crash_array
read_all_crashes_json limit fs = build_crash_array (summaries_of (newest limit fs))
