-- ===== src/Culprit/Verdict.antt =====
-- src/report/CulpritHeuristic.cpp, `ComputeVerdict` and `EmitCulpritLine`. `none` is a read out of
-- range.
use redscope.Base.{
  ℕ, ◌+◌, ◌-◌, ◌%◌, ◌^◌, Bool, ◌||◌, Option, none, some, [], ◌∷◌, ◌++◌, ◌==◌, if◌then◌else◌, Bytes,
  CStr, get_elem?, codes, ◌>>=◌,
}
use redscope.Format.{hex, hex8, hex16}
use redscope.Text.{iequals_ascii}
use redscope.Buffer.{PreallocatedBuffer, appendf}
use redscope.Modules.{ModuleKind, ModuleInfoFixed, find_module_by_pc}
use redscope.Snapshot.{Snapshot, PluginInfo}
use redscope.InFlight.{InFlightSet}
use redscope.Fingerprint.{present}
use redscope.Culprit.{
  CulpritConfidence, CulpritCategory, CulpritVerdict, verdict, lookup_plugin_meta,
  is_host_framework_module, format_in_flight, category_label, confidence_label,
}

-- The first `switch`, on the exception code.
unfoldable pub code_verdict : ℕ → Option CulpritVerdict
code_verdict code =
    if code == 0xC00000FD
    then some (
        verdict CulpritCategory.stack_overflow CulpritConfidence.high (
          codes
            "infinite recursion or excessive call depth - check the native call stack for repeating frames"))
    else if code == 0xC0000374
    then some (
        verdict CulpritCategory.memory CulpritConfidence.high (
          codes
            "heap corruption detected - actual culprit corrupted memory earlier in the session; check the loaded-mod set and recent changes"))
    else if code == 0xC0000409
    then some (
        verdict CulpritCategory.memory CulpritConfidence.high (
          codes
            "stack buffer overrun (/GS check failed) - check frames near RIP for the offending function"))
    else if code == 0xC0000006
    then some (
        verdict CulpritCategory.memory CulpritConfidence.medium (
          codes
            "page-in failed - possible bad sector, disconnected drive, or corrupted memory-mapped file"))
    else if code == 0x887A0005 || code == 0x887A0006 || code == 0x887A0007
    then some (
        verdict CulpritCategory.system CulpritConfidence.low (
          codes "GPU device removed/reset (TDR 0x"
          ++ (hex8 code
              ++ codes
                  ") - a driver/hardware/overclock crash, NOT a mod; update GPU drivers, revert overclocks, check thermals")))
    else none

-- `name+0xoff`.
abbrev place : Bytes → ℕ → Bytes
place name off = name ++ (codes "+0x" ++ hex off)

-- `case ModuleKind::Mod` past the framework modules.
unfoldable pub plugin_text : Option PluginInfo → Bytes → ℕ → Bytes
plugin_text none name off = place name off
plugin_text (some p) name off = elim (p.version) [
  | [] ↦ place name off
  | v ∷ vs ↦ elim (p.authors) [
    | [] ↦ place name off ++ (codes " (v" ++ (p.version ++ codes ")"))
    | a ∷ as_ ↦
        place name off ++ (codes " (v" ++ (p.version ++ (codes " by " ++ (p.authors ++ codes ")"))))
  ]
]

unfoldable pub mod_verdict : Snapshot → Bytes → ℕ → CulpritVerdict
unfolding plugin_text
mod_verdict s name off =
    if is_host_framework_module name
    then verdict CulpritCategory.is_mod CulpritConfidence.low (
        place name off
        ++ codes
            " - framework/host module, rarely the real culprit; check LAST ACTIVE and recently-changed mods")
    else verdict CulpritCategory.is_mod CulpritConfidence.high
        (plugin_text (lookup_plugin_meta s name) name off)

-- A text behind a pointer that is not null.
abbrev text_of : CStr → Bytes
text_of none = []
text_of (some s) = s

unfoldable pub game_verdict : Bytes → ℕ → CStr → Bytes → CStr → ℕ → CulpritVerdict
game_verdict name off symbol in_flight mod_name mod_rva =
    if present mod_name
    then verdict CulpritCategory.is_mod CulpritConfidence.medium (
        place (text_of mod_name) mod_rva
        ++ (codes " on the crashing stack (fault surfaced in "
            ++ (place name off
                ++ (codes
                      ") - a mod DLL was mid-call when the game faulted; investigate it and recently-changed mods"
                    ++ in_flight))))
    else verdict CulpritCategory.game CulpritConfidence.medium (
        if present symbol
        then name ++ (codes "!" ++ (place (text_of symbol) off ++ in_flight))
        else place name off ++ (codes " (unsymbolicated)" ++ in_flight))

unfoldable pub system_verdict : Bytes → ℕ → Bytes → CStr → ℕ → CulpritVerdict
system_verdict name off in_flight mod_name mod_rva =
    if present mod_name
    then verdict CulpritCategory.is_mod CulpritConfidence.medium (
        place (text_of mod_name) mod_rva
        ++ (codes " on the crashing stack (fault surfaced in "
            ++ (place name off
                ++ (codes
                      ", a system module) - a mod DLL was mid-call; investigate it and recently-changed mods"
                    ++ in_flight))))
    else verdict CulpritCategory.system CulpritConfidence.low (place name off ++ codes " (system)")

-- From the module and its name on.
unfoldable pub module_verdict :
    Snapshot → ModuleKind → Bytes → ℕ → CStr → Bytes → CStr → ℕ → CulpritVerdict
unfolding mod_verdict game_verdict system_verdict
module_verdict s kind name off symbol in_flight mod_name mod_rva =
    if iequals_ascii (some name) (some (codes "REDscope.dll"))
    then verdict CulpritCategory.redscope_itself CulpritConfidence.high (
        place name off
        ++ codes
            " - crash inside REDscope itself (likely a dbg_crash self-test; if not, file a bug)")
    else elim kind [
      | ModuleKind.is_mod ↦ mod_verdict s name off
      | ModuleKind.game ↦ game_verdict name off symbol in_flight mod_name mod_rva
      | ModuleKind.system ↦ system_verdict name off in_flight mod_name mod_rva
      | ModuleKind.unknown ↦ verdict CulpritCategory.unknown CulpritConfidence.low (
          place name off
          ++ (codes " - unclassified module; could be an injector or overlay" ++ in_flight))
    ]

-- What the search for the module leads to.
unfoldable pub found_verdict :
    ℕ → Snapshot → CStr → Bytes → CStr → ℕ → Option ModuleInfoFixed → Option CulpritVerdict
unfolding module_verdict
found_verdict rip s symbol in_flight mod_name mod_rva none = some (
    verdict CulpritCategory.unknown CulpritConfidence.unknown (
      codes "RIP 0x"
      ++ (hex16 rip ++ (codes " does not lie inside any loaded module" ++ in_flight))))
found_verdict rip s symbol in_flight mod_name mod_rva (some m) = do
  name ← get_elem? s.module_names m.name_index
  some (
      module_verdict s m.kind name ((rip + 2 ^ 64 - m.base) % 2 ^ 64) symbol in_flight mod_name
        mod_rva)

unfoldable pub snapshot_verdict :
    ℕ → Option Snapshot → CStr → Bytes → CStr → ℕ → Option CulpritVerdict
unfolding found_verdict
snapshot_verdict rip none symbol in_flight mod_name mod_rva = some (
    verdict CulpritCategory.unknown CulpritConfidence.unknown (
      codes "snapshot unavailable at crash time - RIP 0x"
      ++ (hex16 rip ++ (codes " not attributed" ++ in_flight))))
snapshot_verdict rip (some s) symbol in_flight mod_name mod_rva =
    let search = find_module_by_pc s.modules rip in
    if s.oom_suspected
    then some (
        verdict CulpritCategory.memory CulpritConfidence.low (
          codes "memory/VRAM near-exhausted at crash ("
          ++ (s.oom_basis
              ++ codes
                  ") - suspected out-of-memory; an environmental crash, not necessarily a specific mod")))
    else search >>= found_verdict rip s symbol in_flight mod_name mod_rva

-- The early return of the first `switch`.
abbrev pub or_else : Option CulpritVerdict → Option CulpritVerdict → Option CulpritVerdict
or_else (some v) rest = some v
or_else none rest = rest

unfoldable pub compute_verdict :
    ℕ → ℕ → Option Snapshot → CStr → Option InFlightSet → CStr → ℕ → Option CulpritVerdict
unfolding code_verdict snapshot_verdict
compute_verdict code rip snap symbol in_flight mod_name mod_rva =
    or_else (code_verdict code)
      (snapshot_verdict rip snap symbol (format_in_flight in_flight 160) mod_name mod_rva)

-- The text of the line, which `Appendf` adds to the report.
unfoldable pub culprit_line : CulpritVerdict → Bytes
unfolding category_label confidence_label
culprit_line v =
    codes "LIKELY CULPRIT: "
    ++ (category_label v.category
        ++ (elim (v.confidence) [
          | CulpritConfidence.unknown ↦ []
          | CulpritConfidence.low ↦ in_brackets (CulpritConfidence.low)
          | CulpritConfidence.medium ↦ in_brackets (CulpritConfidence.medium)
          | CulpritConfidence.high ↦ in_brackets (CulpritConfidence.high)
        ]
            ++ (codes " - " ++ (v.text ++ (10 ∷ 10 ∷ [])))))
  where
    in_brackets : CulpritConfidence → Bytes
    in_brackets k = codes " (" ++ (confidence_label k ++ codes ")")

unfoldable pub emit_culprit_line : CulpritVerdict → PreallocatedBuffer → PreallocatedBuffer × Bool
emit_culprit_line v out = appendf (some (culprit_line v)) out
