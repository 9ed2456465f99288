-- ===== src/Fingerprint/Compute.antt =====
-- src/report/Fingerprint.cpp, `ComputeFingerprint`: what a crash hands to the core. `none` is a
-- read out of range.
pub mod Tail
use redscope.Base.{
  ℕ, zero, suc, ◌+◌, ◌-◌, ◌%◌, ◌^◌, min, Bool, ◌||◌, Option, none, some, List, [], ◌∷◌, ◌++◌, leb,
  ◌==◌, if◌then◌else◌, CStr, ◌>>=◌, length, get_elem?, codes,
}
use redscope.Format.{hex, printed}
use redscope.Text.{to_lower_ascii, lower_bytes}
use redscope.Modules.{ModuleInfoFixed, find_module_by_pc}
use redscope.Snapshot.{Snapshot, module_name_cap}
use redscope.ScriptStack.{Frame, ThreadStack}
use redscope.ScriptStack.Heartbeat.{HeartbeatSlot}
use redscope.Fingerprint.{
  CrashFingerprint, present, max_fingerprint_tail, compute_fingerprint_core, compute_mod_set_hash,
}

-- `pushTail`: the frame's name, with the object's class behind a bar where it is known.
unfoldable pub push_tail : CStr → CStr → List CStr → List CStr
push_tail none cls tail = tail
push_tail (some name) cls tail =
    if leb max_fingerprint_tail (length tail)
    then tail
    else tail
      ++ ((if present cls
            then some (printed 192 (name ++ b'|' ∷ elim cls [ none ↦ [] | some c ↦ c ]))
            else some name)
          ∷ [])

-- The loop over the frames, innermost first, for `n` more rounds.
unfoldable pub stack_tail : ℕ → ℕ → ThreadStack → List CStr → Option (List CStr)
unfolding push_tail
stack_tail zero i s tail = some tail
stack_tail (suc n) i s tail = do
  fr ← get_elem? s.frames (s.depth - 1 - i)
  stack_tail n (i + 1) s (push_tail fr.full_name fr.this_class_name tail)

-- The name of the thread's own heartbeat.
unfoldable pub heartbeat_tail : ℕ → List HeartbeatSlot → List CStr
unfolding push_tail
heartbeat_tail tid [] = []
heartbeat_tail tid (b ∷ bs) =
    let here = push_tail b.last_full_name b.last_this_class_name [] in
    let on = heartbeat_tail tid bs in
    elim b.last_full_name [ none ↦ on | some n ↦ if b.thread_id == tid then here else on ]

-- What stands in for an empty tail.
abbrev or_mod : CStr → ℕ → List CStr → List CStr
or_mod (some (c ∷ name)) rva [] =
    push_tail (some (printed 160 ((c ∷ name) ++ (codes "+0x" ++ hex rva)))) none []
or_mod m rva tail = tail

abbrev or_heartbeat : ℕ → List HeartbeatSlot → List CStr → List CStr
or_heartbeat tid bs [] = heartbeat_tail tid bs
or_heartbeat tid bs (t ∷ tail) = t ∷ tail

unfoldable pub fingerprint_tail :
    ThreadStack → CStr → ℕ → ℕ → List HeartbeatSlot → Option (List CStr)
unfolding stack_tail heartbeat_tail push_tail
fingerprint_tail s mod_name mod_rva tid bs = do
  tail ← stack_tail (min max_fingerprint_tail s.depth) 0 s []
  some (or_heartbeat tid bs (or_mod mod_name mod_rva tail))

abbrev pub is_unreliable : ℕ → Bool
is_unreliable code = code == 0xC0000374 || code == 0xC0000409 || code == 0xC00000FD

-- The module's name in lower case and the offset of the address in it.
place_in : ℕ → Snapshot → Option ModuleInfoFixed → Option (CStr × ℕ)
place_in rip snap none = some (none, 0)
place_in rip snap (some m) = do
  name ← get_elem? snap.module_names m.name_index
  some (some (lower_bytes module_name_cap name), (rip + 2 ^ 64 - m.base) % 2 ^ 64)

unfoldable pub fault_module : ℕ → Snapshot → Option (CStr × ℕ)
unfolding place_in
fault_module rip snap = do found ← find_module_by_pc snap.modules rip; place_in rip snap found

unfoldable pub compute_fingerprint :
    ℕ
    → ℕ
    → Option Snapshot
    → CStr
    → CStr
    → ℕ
    → ThreadStack
    → ℕ
    → List HeartbeatSlot
    → Option CrashFingerprint
unfolding fingerprint_tail fault_module
compute_fingerprint code rip none symbol mod_name mod_rva s tid bs = do
  tail ← fingerprint_tail s mod_name mod_rva tid bs
  some (
      compute_fingerprint_core code none none 0 symbol tail (compute_mod_set_hash none)
        (is_unreliable code))
compute_fingerprint code rip (some snap) symbol mod_name mod_rva s tid bs = do
  (module_name, rva) ← fault_module rip snap
  tail ← fingerprint_tail s mod_name mod_rva tid bs
  some (
      compute_fingerprint_core code (some snap.build_string) module_name rva symbol tail
        (compute_mod_set_hash (some snap.inventory.mods)) (is_unreliable code))
