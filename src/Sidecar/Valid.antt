-- ===== src/Sidecar/Valid.antt =====
-- src/report/JsonSidecar.cpp, `BuildDiagnosticJson`: what it appends is a document of JSON.
use redscope.Base.{◌≡◌, Option, List, ◌∷◌, ◌++◌, Bytes}
use redscope.Json.Accept.{Context, in_object, next_key, after, run, run-append, IsJson}
use redscope.Json.Lists.{json_laws}
use redscope.Snapshot.{Snapshot}
use redscope.Sidecar.{
  emit_hardware_json, emit_setup_integrity, emit_archive_conflicts, emit_mod_inventory,
  diagnostic_json_text,
}
use redscope.Sidecar.Parts.{
  IsMember, emit_hardware_json-IsMember, emit_setup_integrity-IsMember,
  emit_archive_conflicts-IsMember, emit_mod_inventory-Runs,
}

-- A section before the rest of the file.
pub member_run :
    (s : Bytes)
    → IsMember s
    → (t : Bytes) (stack : List Context)
    → run (s ++ t) (next_key, in_object ∷ stack) ≡ run t (next_key, in_object ∷ stack)
member_run s h t stack =
    run-append s t (next_key, in_object ∷ stack) (next_key, in_object ∷ stack) (h stack)

pub inventory_run :
    (s : Option Snapshot) (t : Bytes) (stack : List Context)
    → run (emit_mod_inventory s ++ t) (next_key, in_object ∷ stack)
      ≡ run t (after, in_object ∷ stack)
inventory_run s t stack =
    run-append (emit_mod_inventory s) t (next_key, in_object ∷ stack) (after, in_object ∷ stack)
      (emit_mod_inventory-Runs s stack)

-- All that is appended for the diagnostic file is one value of JSON.
pub diagnostic_json_text-IsJson : (s : Option Snapshot) → IsJson (diagnostic_json_text s)
unfolding diagnostic_json_text run
diagnostic_json_text-IsJson s = simp (
  json_laws,
  member_run (emit_hardware_json s) (emit_hardware_json-IsMember s),
  member_run (emit_setup_integrity s) (emit_setup_integrity-IsMember s),
  member_run (emit_archive_conflicts s) (emit_archive_conflicts-IsMember s),
  inventory_run s,
)
