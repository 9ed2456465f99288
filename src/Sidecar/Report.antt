-- ===== src/Sidecar/Report.antt =====
-- src/report/JsonSidecar.cpp, `BuildJsonSidecar`: the file beside a crash report. What other components
-- have found (the ids, the objects, the frames of mods, the words on the stack) is an argument.
pub mod Sections
pub mod Valid
use redscope.Base.{
  ℕ, Bool, false, ◌||◌, Option, none, some, List, [], ◌∷◌, ◌++◌, map, ◌==◌, if◌then◌else◌, Bytes,
  length, set, get_or, codes,
}
use mathlib.Core.List.{reverse}
use redscope.Base.Int.{ℤ, pos}
use redscope.CrashClass.{CrashClass, crash_class_label}
use redscope.Format.{hex, hex8, hex16}
use redscope.Fingerprint.{CrashFingerprint}
use redscope.GameState.{GameStateEntry, GameStateLive}
use redscope.InFlight.{InFlightObject, InFlightSet}
use redscope.Json.{json_text, print_u, print_lld, json_bool, listed}
use redscope.Modules.{ModuleKind}
use redscope.ScriptStack.{Frame, ThreadStack, visible}
use redscope.Session.{ModSnapshot, ModDiff}
use redscope.Sidecar.{
  version_of, build_of, emit_hardware_json, emit_setup_integrity, emit_archive_conflicts,
  emit_mod_inventory,
}
use redscope.Sidecar.StackModules.{
  StackModuleHit, StackModuleScan, no_hits, collect_stack_modules, sort_hits,
}
use redscope.Snapshot.{Snapshot}
use redscope.Stream.{is_empty, strip_end, take_while}
use redscope.WrapChain.{WrapLayer, WrapChainEntry, WrapChainTable, find_chain}

-- A frame of `GatherModFramesOnStack`: its module name stands in the table at `name_index`, and two
-- pointers to names are equal when the indices are.
pub record ModStackFrame : Type 0 where
  pub frame_index : ℕ
  pub name_index : ℕ

pub record SidecarInput : Type 0 where
  pub fingerprint : CrashFingerprint
  pub code : ℕ
  pub address : ℕ
  pub crash_time_unix : ℤ
  pub faulting_module : Option (Bytes × ℕ)
  pub in_flight : Option InFlightSet
  pub stack_objects : InFlightSet
  pub slots : List ℕ
  pub mod_frames : List ModStackFrame
  pub uptime_ns_at_crash : ℤ
  pub crash_class : CrashClass
  pub script_stack : ThreadStack

unfoldable pub emit_head : SidecarInput → Bytes
emit_head c =
    codes "{\n  \"schema\": 15,\n  \"tool\": \"REDscope\",\n  \"crashTimeUnix\": "
    ++ (print_lld c.crash_time_unix
        ++ (codes ",\n  \"crashId\": "
            ++ (json_text c.fingerprint.primary_id
                ++ (codes ",\n  \"looseId\": "
                    ++ (json_text c.fingerprint.loose_id ++ codes ",\n")))))

unfoldable pub emit_fingerprint : CrashFingerprint → Bytes
emit_fingerprint fp =
    codes "  \"fingerprint\": {\n    \"primary\": \""
    ++ (hex16 fp.primary
        ++ (codes "\",\n    \"loose\": \""
            ++ (hex16 fp.loose
                ++ (codes "\",\n    \"modSet\": \""
                    ++ (hex16 fp.mod_set
                        ++ (codes "\",\n    \"faultSiteUnreliable\": "
                            ++ (json_bool fp.fault_site_unreliable
                                ++ (codes ",\n    \"hasModule\": "
                                    ++ (json_bool fp.has_module ++ codes "\n  },\n")))))))))

unfoldable pub emit_exception : ℕ → ℕ → Bytes
emit_exception code address =
    codes "  \"exception\": {\n    \"code\": \"0x"
    ++ (hex8 code ++ (codes "\",\n    \"address\": \"0x" ++ (hex16 address ++ codes "\"\n  },\n")))

unfoldable pub emit_faulting_module : Option (Bytes × ℕ) → Bytes
emit_faulting_module none = codes "  \"faultingModule\": null,\n"
emit_faulting_module (some (name, rva)) =
    codes "  \"faultingModule\": { \"name\": "
    ++ (json_text name ++ (codes ", \"rva\": \"0x" ++ (hex rva ++ codes "\" },\n")))

unfoldable pub register_item : InFlightObject → Bytes
register_item o =
    codes "{ \"reg\": "
    ++ (json_text o.reg ++ (codes ", \"className\": " ++ (json_text o.class_name ++ codes " }")))

abbrev pub objects_of : Option InFlightSet → List InFlightObject
objects_of none = []
objects_of (some set) = set.items

unfoldable pub emit_objects_in_flight : Option InFlightSet → Bytes
unfolding register_item
emit_objects_in_flight set =
    codes "  \"objectsInFlight\": ["
    ++ (listed (map register_item (objects_of set)) ++ codes "],\n")

unfoldable pub stack_item : InFlightObject → Bytes
stack_item o =
    codes "{ \"className\": "
    ++ (json_text o.class_name ++ (codes ", \"sp\": " ++ (print_u o.stack_offset ++ codes " }")))

unfoldable pub emit_stack_objects : InFlightSet → Bytes
unfolding stack_item
emit_stack_objects set =
    codes "  \"stackObjects\": [" ++ (listed (map stack_item set.items) ++ codes "],\n")

unfoldable pub module_kind_label : ModuleKind → Bytes
module_kind_label ModuleKind.is_mod = codes "mod"
module_kind_label ModuleKind.game = codes "game"
module_kind_label ModuleKind.system = codes "system"
module_kind_label ModuleKind.unknown = codes "unknown"

-- The table of names has a place for each index below 256; an unused place is an empty text.
abbrev pub name_at : Option Snapshot → ℕ → Bytes
name_at none i = []
name_at (some s) i = get_or s.module_names i []

unfoldable pub hit_item : Option Snapshot → StackModuleHit → Bytes
unfolding module_kind_label
hit_item s h =
    codes "{ \"name\": "
    ++ (json_text (name_at s h.name_index)
        ++ (codes ", \"hits\": "
            ++ (print_u h.hits
                ++ (codes ", \"kind\": " ++ (json_text (module_kind_label h.kind) ++ codes " }")))))

abbrev pub scan_of : Option Snapshot → List ℕ → StackModuleScan
scan_of none slots = no_hits
scan_of (some s) slots = collect_stack_modules s.modules slots

-- `slotsScanned`: without a snapshot nothing is scanned.
abbrev pub scanned_of : Option Snapshot → List ℕ → ℕ
scanned_of none slots = 0
scanned_of (some s) slots = length slots

unfoldable pub emit_stack_modules : Option Snapshot → List ℕ → Bytes
unfolding hit_item collect_stack_modules sort_hits
emit_stack_modules s slots =
    codes "  \"stackModules\": ["
    ++ (listed (map (hit_item s) (sort_hits [] (scan_of s slots).hits))
        ++ (codes "],\n  \"stackModulesScanned\": "
            ++ (print_u (scanned_of s slots)
                ++ (codes ",\n  \"stackModulesOverflow\": "
                    ++ (json_bool (scan_of s slots).overflow ++ codes ",\n")))))

abbrev pub is_seen : ℕ → List ℕ → Bool
is_seen i [] = false
is_seen i (j ∷ js) = i == j || is_seen i js

-- The first frame of each module.
unfoldable pub first_frames : List ℕ → List ModStackFrame → List ModStackFrame
first_frames seen [] = []
first_frames seen (f ∷ fs) =
    let again = first_frames seen fs in
    let fresh = first_frames (f.name_index ∷ seen) fs in
    if is_seen f.name_index seen then again else f ∷ fresh

unfoldable pub frame_item : Option Snapshot → ModStackFrame → Bytes
frame_item s f =
    codes "{ \"name\": "
    ++ (json_text (name_at s f.name_index)
        ++ (codes ", \"topFrame\": " ++ (print_u f.frame_index ++ codes " }")))

abbrev pub frames_of : Option Snapshot → List ModStackFrame → List ModStackFrame
frames_of none fs = []
frames_of (some s) fs = fs

unfoldable pub emit_call_stack_mods : Option Snapshot → List ModStackFrame → Bytes
unfolding first_frames frame_item
emit_call_stack_mods s fs =
    codes "  \"callStackMods\": ["
    ++ (listed (map (frame_item s) (first_frames [] (frames_of s fs))) ++ codes "],\n")

abbrev pub uptime_of : Option Snapshot → ℤ
uptime_of none = pos 0
uptime_of (some s) = s.game_uptime_ns

unfoldable pub emit_build : Option Snapshot → ℤ → CrashClass → Bytes
unfolding crash_class_label
emit_build s uptime_ns cls =
    codes "  \"buildId\": "
    ++ (json_text (build_of s)
        ++ (codes ",\n  \"red4extVersion\": "
            ++ (json_text (version_of s)
                ++ (codes ",\n  \"gameUptimeNs\": "
                    ++ (print_lld (uptime_of s)
                        ++ (codes ",\n  \"uptimeNsAtCrash\": "
                            ++ (print_lld uptime_ns
                                ++ (codes ",\n  \"crashClass\": "
                                    ++ (json_text (crash_class_label cls) ++ codes ",\n")))))))))
