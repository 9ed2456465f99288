-- ===== src/Config.antt =====
-- src/Config.h and src/Config.cpp: the settings in REDscope.ini, and `WriteAutoDownloadIni` of
-- src/breadcrumbs/BreadcrumbApi.cpp, which changes one of them. A file is what `std::getline` reads of
-- it. `std::stoul` is that of Windows, where `unsigned long` has 32 bits. The path of the symbols is the
-- text in the file; joining it with the folder of the plugin is `std::filesystem`.
pub mod AutoDownload
pub mod Bounds
pub mod Examples
use redscope.Base.{
  ℕ, ◌+◌, ◌-◌, ◌*◌, ◌^◌, Bool, true, false, ◌&&◌, ◌||◌, Option, none, some, List, [], ◌∷◌, ◌++◌,
  map, ltb, leb, ◌==◌, if◌then◌else◌, Bytes, str_eq, drop, codes,
}
use redscope.Stream.{
  is_empty, getlines, cut_at, starts_with, skip_while, strip_end, trim_by, begins, is_space,
}
use redscope.Text.{to_lower_ascii}

-- `Trim`.
unfoldable pub trim : Bytes → Bytes
unfolding trim_by
trim s = trim_by is_space s

abbrev pub is_one_of : Bytes → List Bytes → Bool
is_one_of s [] = false
is_one_of s (w ∷ ws) = str_eq s w || is_one_of s ws

abbrev pub words_true : List Bytes
words_true = codes "true" ∷ codes "1" ∷ codes "yes" ∷ codes "on" ∷ []

abbrev pub words_false : List Bytes
words_false = codes "false" ∷ codes "0" ∷ codes "no" ∷ codes "off" ∷ []

unfoldable pub parse_bool : Bytes → Bool → Bool
unfolding to_lower_ascii
parse_bool v def =
    let lower = map to_lower_ascii v in
    if is_one_of lower words_true then true else if is_one_of lower words_false then false else def

-- The number that digits make, after `acc`, with what follows it left out.
unfoldable pub digits_value : ℕ → Bytes → ℕ
digits_value acc [] = acc
digits_value acc (c ∷ s) =
    let more = digits_value (acc * 10 + (c - b'0')) s in
    if leb b'0' c && leb c b'9' then more else acc

abbrev pub drop_plus : Bytes → Bytes
drop_plus [] = []
drop_plus (c ∷ s) = if c == b'+' then s else c ∷ s

-- `std::stoul`, or none where it throws. A minus does not reach it: `ParseUint` looks for one.
unfoldable pub stoul : Bytes → Option ℕ
unfolding skip_while digits_value
stoul v =
    let s = drop_plus (skip_while is_space v) in
    if begins (λ c. leb b'0' c && leb c b'9') s
    then if ltb (digits_value 0 s) (2 ^ 32) then some (digits_value 0 s) else none
    else none

-- The loop before the number: a minus after spaces.
unfoldable pub has_minus : Bytes → Bool
has_minus [] = false
has_minus (c ∷ v) =
    let rest = has_minus v in if c == b'-' then true else if is_space c then rest else false

abbrev pub or_default : ℕ → Option ℕ → ℕ
or_default def none = def
or_default def (some n) = n

unfoldable pub parse_uint : Bytes → ℕ → ℕ
unfolding stoul has_minus
parse_uint v def = if has_minus v then def else or_default def (stoul v)

unfoldable pub parse_uint_clamped : Bytes → ℕ → ℕ → ℕ → ℕ
unfolding parse_uint
parse_uint_clamped v def lo hi =
    let parsed = parse_uint v def in
    if ltb parsed lo then lo else if ltb hi parsed then hi else parsed

-- The loop's variables: `kv`, the newest first, and `section`.
pub record IniState : Type 0 where
  pub kv : List (Bytes × Bytes)
  pub section : Bytes

abbrev pub last_is : ℕ → Bytes → Bool
last_is c [] = false
last_is c (d ∷ []) = d == c
last_is c (d ∷ e ∷ s) = last_is c (e ∷ s)

abbrev pub drop_last : Bytes → Bytes
drop_last [] = []
drop_last (c ∷ []) = []
drop_last (c ∷ d ∷ s) = c ∷ drop_last (d ∷ s)

-- The name of the section, if a trimmed line is its header. A line of one bracket is none.
unfoldable pub header : Bytes → Option Bytes
unfolding trim
header line =
    if begins (λ c. c == b'[') line && last_is b']' line
    then some (trim (drop_last (drop 1 line)))
    else none

abbrev pub put_pair : Option (Bytes × Bytes) → IniState → IniState
put_pair none st = st
put_pair (some (a, b)) st = record st { kv = (st.section ++ (b'.' ∷ trim a), trim b) ∷ st.kv }

abbrev pub read_trimmed : Option Bytes → Bytes → IniState → IniState
read_trimmed (some name) line st = record st { section = name }
read_trimmed none line st = put_pair (cut_at b'=' line) st

-- One round of the loop.
unfoldable pub read_ini_line : Bytes → IniState → IniState
unfolding trim header cut_at
read_ini_line l st =
    let line = trim l in
    if is_empty line || begins (λ c. c == b';') line || begins (λ c. c == b'#') line
    then st
    else read_trimmed (header line) line st

unfoldable pub read_ini : List Bytes → IniState → IniState
unfolding read_ini_line
read_ini [] st = st
read_ini (l ∷ ls) st = read_ini ls (read_ini_line l st)

abbrev pub no_settings : IniState
no_settings = record { kv = []; section = [] }

-- `get`.
unfoldable pub find_setting : Bytes → List (Bytes × Bytes) → Option Bytes
find_setting k [] = none
find_setting k ((j, v) ∷ kv) = let rest = find_setting k kv in if str_eq j k then some v else rest

pub record Config : Type 0 where
  pub respect_debugger : Bool
  pub terminate_process_after_report : Bool
  pub capture_all_thread_stacks : Bool
  pub max_crash_files : ℕ
  pub find_entity_ring_size : ℕ
  pub tweak_db_ring_size : ℕ
  pub archive_ring_size : ℕ
  pub snapshot_interval_ms : ℕ
  pub symbol_db_path : Option Bytes
  pub symbols_auto_download : Bool
  pub stack_dump_slot_count : ℕ
  pub test_inject_crash_after_seconds : ℕ
  pub hang_watchdog_enabled : Bool
  pub hang_threshold_seconds : ℕ

abbrev pub default_config : Config
default_config = record {
  respect_debugger = true;
  terminate_process_after_report = false;
  capture_all_thread_stacks = true;
  max_crash_files = 50;
  find_entity_ring_size = 32;
  tweak_db_ring_size = 16;
  archive_ring_size = 16;
  snapshot_interval_ms = 500;
  symbol_db_path = none;
  symbols_auto_download = false;
  stack_dump_slot_count = 512;
  test_inject_crash_after_seconds = 0;
  hang_watchdog_enabled = true;
  hang_threshold_seconds = 45;
}

abbrev pub bool_or : Option Bytes → Bool → Bool
bool_or none def = def
bool_or (some v) def = parse_bool v def

abbrev pub uint_or : Option Bytes → ℕ → ℕ
uint_or none def = def
uint_or (some v) def = parse_uint v def

abbrev pub clamped_or : Option Bytes → ℕ → ℕ → ℕ → ℕ
clamped_or none def lo hi = def
clamped_or (some v) def lo hi = parse_uint_clamped v def lo hi

-- The part of `LoadConfig` behind the loop.
unfoldable pub config_of : List (Bytes × Bytes) → Config
unfolding find_setting parse_bool parse_uint parse_uint_clamped
config_of kv = record {
  respect_debugger = bool_or (find_setting (codes "core.respect_debugger") kv) true;
  terminate_process_after_report =
      bool_or (find_setting (codes "core.terminate_process_after_report") kv) false;
  capture_all_thread_stacks =
      bool_or (find_setting (codes "core.capture_all_thread_stacks") kv) true;
  max_crash_files = clamped_or (find_setting (codes "core.max_crash_files") kv) 50 1 10000;
  find_entity_ring_size =
      clamped_or (find_setting (codes "buffers.find_entity_ring_size") kv) 32 4 4096;
  tweak_db_ring_size = clamped_or (find_setting (codes "buffers.tweakdb_ring_size") kv) 16 4 4096;
  archive_ring_size = clamped_or (find_setting (codes "buffers.archive_ring_size") kv) 16 4 4096;
  snapshot_interval_ms =
      clamped_or (find_setting (codes "buffers.snapshot_interval_ms") kv) 500 50 60000;
  symbol_db_path = find_setting (codes "symbols.symbol_db_path") kv;
  symbols_auto_download = bool_or (find_setting (codes "symbols.auto_download") kv) false;
  stack_dump_slot_count = clamped_or (find_setting (codes "stack.dump_slot_count") kv) 512 1 65536;
  test_inject_crash_after_seconds =
      uint_or (find_setting (codes "test.test_inject_crash_after_seconds") kv) 0;
  hang_watchdog_enabled = bool_or (find_setting (codes "watchdog.hang_watchdog_enabled") kv) true;
  hang_threshold_seconds = uint_or (find_setting (codes "watchdog.hang_threshold_seconds") kv) 45;
}

-- `LoadConfig`, on the file's bytes if it can be opened.
unfoldable pub load_config : Option Bytes → Config
unfolding config_of read_ini getlines
load_config none = default_config
load_config (some text) = config_of (read_ini (getlines text) no_settings).kv
