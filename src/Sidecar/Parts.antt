-- ===== src/Sidecar/Parts.antt =====
-- src/report/JsonSidecar.cpp: each section that the two files share is a member of an object of JSON.
use redscope.Base.{
  ℕ, ◌≡◌, refl, ◌∙◌, Option, none, some, List, [], ◌∷◌, ◌++◌, map, append_assoc, Bytes, take, codes,
}
use redscope.Conflicts.{MissingDep, ArchiveConflicts}
use redscope.Inventory.{InstalledMod, max_installed_mods}
use redscope.Json.{json_text, listed, print_u}
use redscope.Json.Accept.{
  Context, in_object, in_array, value, first_item, next_key, after, run, Runs,
}
use redscope.Json.Lists.{IsItem, json_text-IsItem, items_run, u_comma, json_laws}
use redscope.Setup.{SetupIssue, SetupIntegrity}
use redscope.Snapshot.{GpuAdapter, HardwareSpecs, Snapshot}
use redscope.Sidecar.{
  subpath_part, archives_part, mod_item, named_mods, emit_mod_inventory, gpu_part, hardware_value,
  emit_hardware_json, group_item, missing_item, conflicts_value, emit_archive_conflicts, issue_item,
  setup_value, emit_setup_integrity,
}

texts_run :
    (xs : List Bytes) (t : Bytes) (stack : List Context)
    → run (listed (map json_text xs) ++ (b']' ∷ t)) (first_item, in_array ∷ stack)
      ≡ run t (after, stack)
texts_run xs t stack = items_run json_text xs json_text-IsItem t stack

subpath_run :
    (s t : Bytes) (stack : List Context)
    → run (subpath_part s ++ t) (after, in_object ∷ stack) ≡ run t (after, in_object ∷ stack)
unfolding subpath_part run
subpath_run [] t stack = refl
subpath_run (c ∷ s) t stack = simp json_laws

archives_list :
    (xs : List Bytes) (t : Bytes) (stack : List Context)
    → run
        ((codes ", \"archives\": [" ++ (listed (map json_text xs) ++ codes "]")) ++ t)
        (after, in_object ∷ stack)
      ≡ run t (after, in_object ∷ stack)
unfolding run
archives_list xs t stack = simp (append_assoc, texts_run)

archives_run :
    (xs : List Bytes) (t : Bytes) (stack : List Context)
    → run (archives_part xs ++ t) (after, in_object ∷ stack) ≡ run t (after, in_object ∷ stack)
unfolding archives_part run
archives_run [] t stack = refl
archives_run (x ∷ xs) t stack = archives_list (x ∷ xs) t stack

mod_item-IsItem : (m : InstalledMod) → IsItem (mod_item m)
unfolding mod_item run
mod_item-IsItem m = (
  λ stack. simp (json_laws, subpath_run, archives_run),
  λ stack. simp (json_laws, subpath_run, archives_run),
)

issue_item-IsItem : (i : SetupIssue) → IsItem (issue_item i)
unfolding issue_item run
issue_item-IsItem i = (λ stack. simp json_laws, λ stack. simp json_laws)

group_item-IsItem : (mods : List Bytes) → IsItem (group_item mods)
unfolding group_item run
group_item-IsItem mods = (λ stack. simp texts_run, λ stack. simp texts_run)

missing_item-IsItem : (d : MissingDep) → IsItem (missing_item d)
unfolding missing_item run
missing_item-IsItem d = (λ stack. simp (json_laws, texts_run), λ stack. simp (json_laws, texts_run))

setup_value-Runs :
    (si : SetupIntegrity) (stack : List Context)
    → Runs (setup_value si) (value, in_object ∷ stack) (next_key, in_object ∷ stack)
unfolding setup_value run
setup_value-Runs si stack = simp (json_laws, items_run issue_item si.issues issue_item-IsItem)

gpu_run :
    (gs : List GpuAdapter) (t : Bytes) (stack : List Context)
    → run (gpu_part gs ++ (b',' ∷ t)) (after, in_object ∷ stack)
      ≡ run (b',' ∷ t) (after, in_object ∷ stack)
unfolding gpu_part run
gpu_run [] t stack = refl
gpu_run (g ∷ gs) t stack = simp (append_assoc, json_laws)

-- A number before the adapter's part.
u_gpu :
    (n : ℕ) (gs : List GpuAdapter) (t : Bytes) (stack : List Context)
    → run (print_u n ++ (gpu_part gs ++ (b',' ∷ t))) (value, in_object ∷ stack)
      ≡ run (b',' ∷ t) (after, in_object ∷ stack)
unfolding gpu_part
u_gpu n [] t stack = u_comma n t (in_object ∷ stack)
u_gpu n (g ∷ gs) t stack = u_comma n _ (in_object ∷ stack) ∙ gpu_run (g ∷ gs) t stack

hardware_value-Runs :
    (hw : HardwareSpecs) (stack : List Context)
    → Runs (hardware_value hw) (value, in_object ∷ stack) (next_key, in_object ∷ stack)
unfolding hardware_value run
hardware_value-Runs hw stack = simp (json_laws, u_gpu)

conflicts_value-Runs :
    (ac : ArchiveConflicts) (stack : List Context)
    → Runs (conflicts_value ac) (value, in_object ∷ stack) (next_key, in_object ∷ stack)
unfolding conflicts_value run
conflicts_value-Runs ac stack = simp (
  json_laws,
  items_run group_item ac.active group_item-IsItem,
  items_run missing_item ac.missing_deps missing_item-IsItem,
)

-- A section leads from one key to the next.
abbrev pub IsMember : Bytes → Type 0
IsMember s =
    (stack : List Context) → Runs s (next_key, in_object ∷ stack) (next_key, in_object ∷ stack)

pub emit_hardware_json-IsMember : (s : Option Snapshot) → IsMember (emit_hardware_json s)
unfolding emit_hardware_json run
emit_hardware_json-IsMember none stack = refl
emit_hardware_json-IsMember (some s) stack = hardware_value-Runs s.hardware stack

pub emit_setup_integrity-IsMember : (s : Option Snapshot) → IsMember (emit_setup_integrity s)
unfolding emit_setup_integrity run
emit_setup_integrity-IsMember none stack = refl
emit_setup_integrity-IsMember (some s) stack = setup_value-Runs s.setup_integrity stack

pub emit_archive_conflicts-IsMember : (s : Option Snapshot) → IsMember (emit_archive_conflicts s)
unfolding emit_archive_conflicts run
emit_archive_conflicts-IsMember none stack = refl
emit_archive_conflicts-IsMember (some s) stack = conflicts_value-Runs s.archive_conflicts stack

-- The last section has no comma behind it.
pub emit_mod_inventory-Runs :
    (s : Option Snapshot) (stack : List Context)
    → Runs (emit_mod_inventory s) (next_key, in_object ∷ stack) (after, in_object ∷ stack)
unfolding emit_mod_inventory run
emit_mod_inventory-Runs none stack = simp json_laws
emit_mod_inventory-Runs (some s) stack = simp (
  json_laws,
  items_run mod_item (named_mods (take max_installed_mods s.inventory.mods)) mod_item-IsItem,
)
