-- ===== src/Hang.antt =====
-- src/handler/HangWatchdog.h and src/handler/HangWatchdog.cpp: the watchdog that reports a game that
-- has stopped running script code. The times are `int64_t` counts of nanoseconds since the start of
-- the machine; they and a threshold of 32 bits of seconds stay far from the ends of that type.
pub mod Edges
pub mod Ids
pub mod Examples
use Prim.Native.Nat.{bit_xor}
use redscope.Base.{
  ℕ, ◌*◌, Bool, true, false, not, ◌&&◌, ◌||◌, Option, none, some, List, [], ◌∷◌, ltb, ◌==◌,
  if◌then◌else◌, Bytes, CStr, codes,
}
use redscope.Base.Int.{ℤ, pos, negsuc, ◌-ℤ◌, ltb_ℤ, pos_part}
use redscope.Base.Sort.{sort, str_lt}
use redscope.ScriptStack.Heartbeat.{HeartbeatSlot}
use redscope.Snapshot.{Snapshot}
use redscope.Fingerprint.{present}
use redscope.Fnv.{fnv_offset, fnv_str, mix64, id_chars_from}

pub data HangVerdict : Type 0 where
  nothing detected rearmed : HangVerdict

unfoldable pub evaluate_hang : ℤ → ℤ → ℤ → ℤ → Bool → HangVerdict
evaluate_hang max_last now engine_state threshold_ns already =
    let running = not (ltb_ℤ engine_state (pos 3)) && not (ltb_ℤ (pos 3) engine_state) in
    let hung = ltb_ℤ threshold_ns (now -ℤ max_last) in
    if not running
    then HangVerdict.nothing
    else if not (ltb_ℤ (pos 0) max_last)
    then HangVerdict.nothing
    else if hung && not already
    then HangVerdict.detected
    else if not hung && already
    then HangVerdict.rearmed
    else HangVerdict.nothing

pub record StuckThread : Type 0 where
  pub tid : ℕ
  pub name : CStr
  pub last_ns : ℤ

unfoldable pub claimed : List HeartbeatSlot → List StuckThread
claimed [] = []
claimed (b ∷ bs) =
    let rest = claimed bs in
    if b.thread_id == 0
    then rest
    else record { tid = b.thread_id; name = b.last_full_name; last_ns = b.last_entered_ns } ∷ rest

-- Most recent first.
abbrev pub later : StuckThread → StuckThread → Bool
later a b = ltb_ℤ b.last_ns a.last_ns

unfoldable pub collect_stuck_threads : List HeartbeatSlot → List StuckThread
unfolding claimed
collect_stuck_threads slots = sort later (claimed slots)

-- `if (s.name && s.name[0]) names.push_back(s.name);`
abbrev pub add_name : CStr → List Bytes → List Bytes
add_name (some (c ∷ n)) names = (c ∷ n) ∷ names
add_name _ names = names

unfoldable pub hang_names : List StuckThread → List Bytes
hang_names [] = []
hang_names (s ∷ ss) = add_name s.name (hang_names ss)

-- `h = FnvStr(h, n); h ^= 0x1F;` for each name.
unfoldable pub hash_names : ℕ → List Bytes → ℕ
hash_names h [] = h
hash_names h (n ∷ ns) = hash_names (bit_xor (fnv_str h (some n)) 0x1F) ns

-- The watchdog's own `EncodeId`: none leaves the destination alone.
unfoldable pub encode_hang_id : ℕ → ℕ → Option Bytes
encode_hang_id h cap =
    if ltb cap 9 then (if cap == 0 then none else some []) else some (id_chars_from (mix64 h) 0 8)

-- The hash of the sorted names and the build.
unfoldable pub hash_sorted : List Bytes → CStr → ℕ
unfolding hash_names
hash_sorted names build_id =
    let h = hash_names fnv_offset names in
    let h' : ℕ = elim names [ [] ↦ fnv_str h (some (codes "no-scripted-activity")) | n ∷ ns ↦ h ] in
    fnv_str h' (elim build_id [ none ↦ some [] | some b ↦ some b ])

-- The hash under the id.
unfoldable pub hang_hash : List StuckThread → CStr → ℕ
unfolding hang_names hash_sorted
hang_hash stuck build_id = hash_sorted (sort str_lt (hang_names stuck)) build_id

unfoldable pub compute_hang_id : List StuckThread → CStr → ℕ → Option Bytes
unfolding hang_hash encode_hang_id
compute_hang_id stuck build_id cap = encode_hang_id (hang_hash stuck build_id) cap

-- The largest `last_ns` above 0.
unfoldable pub max_last : ℤ → List StuckThread → ℤ
max_last m [] = m
max_last m (s ∷ ss) = max_last (if ltb_ℤ m s.last_ns then s.last_ns else m) ss

-- What a report is made of.
pub record HangReport : Type 0 where
  pub hang_id : Option Bytes
  pub silence_ns : ℤ
  pub stuck : List StuckThread

pub record HangInput : Type 0 where
  pub enabled : Bool
  pub threshold_seconds : ℕ
  pub respect_debugger : Bool
  pub debugger_present : Bool
  pub snap : Option Snapshot
  pub slots : List HeartbeatSlot
  pub now : ℤ

abbrev pub engine_state : Snapshot → ℤ
engine_state s = if s.has_data && s.engine_read_ok then s.engine_state_raw else negsuc 0

-- What the verdict does to `g_reported`, and the report that is written.
abbrev pub act : HangVerdict → Bool → HangReport → Bool × Option HangReport
act HangVerdict.detected reported r = (true, some r)
act HangVerdict.rearmed reported r = (false, none)
act HangVerdict.nothing reported r = (reported, none)

abbrev pub verdict_of : Snapshot → HangInput → Bool → HangVerdict
verdict_of s i reported =
    evaluate_hang (max_last (pos 0) (collect_stuck_threads i.slots)) i.now (engine_state s)
      (pos (i.threshold_seconds * 1000000000)) reported

unfoldable pub watch : Snapshot → HangInput → Bool → Bool × Option HangReport
unfolding evaluate_hang collect_stuck_threads max_last compute_hang_id
watch s i reported =
    let stuck = collect_stuck_threads i.slots in
    act (verdict_of s i reported) reported (record {
      hang_id = compute_hang_id stuck (some s.build_string) 12;
      silence_ns = i.now -ℤ max_last (pos 0) stuck;
      stuck = stuck;
    })

-- `CheckForHang` past the test of `snap`.
unfoldable pub checked : Option Snapshot → HangInput → Bool → Bool × Option HangReport
unfolding watch
checked none i reported = (reported, none)
checked (some s) i reported =
    if not i.enabled || i.threshold_seconds == 0
    then (reported, none)
    else if i.respect_debugger && i.debugger_present
    then (reported, none)
    else watch s i reported

-- `CheckForHang`, from `g_reported` before to `g_reported` after.
unfoldable pub check_for_hang : HangInput → Bool → Bool × Option HangReport
unfolding checked
check_for_hang i reported = checked i.snap i reported
