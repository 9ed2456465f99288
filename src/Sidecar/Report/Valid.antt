-- ===== src/Sidecar/Report/Valid.antt =====
-- src/report/JsonSidecar.cpp, `BuildJsonSidecar`: the sections before the state of the engine are
-- members of an object of JSON.
use redscope.Base.{ℕ, ◌≡◌, refl, Option, none, some, List, [], ◌∷◌, ◌++◌, map, Bytes, set, codes}
use redscope.Base.Int.{ℤ}
use redscope.CrashClass.{CrashClass}
use redscope.Fingerprint.{CrashFingerprint}
use redscope.InFlight.{InFlightObject, InFlightSet}
use redscope.Json.{listed}
use redscope.Json.Accept.{Context, in_object, in_array, value, first_item, next_key, run, Runs}
use redscope.Json.Hex.{run-hex, run-hex8, run-hex16}
use redscope.Json.Lists.{IsItem, items_run, json_laws}
use redscope.Sidecar.Parts.{IsMember}
use redscope.Sidecar.Report.{
  ModStackFrame, SidecarInput, emit_head, emit_fingerprint, emit_exception, emit_faulting_module,
  register_item, objects_of, emit_objects_in_flight, stack_item, emit_stack_objects, hit_item,
  scan_of, emit_stack_modules, first_frames, frame_item, frames_of, emit_call_stack_mods,
  emit_build,
}
use redscope.Sidecar.StackModules.{StackModuleHit, sort_hits}
use redscope.Snapshot.{Snapshot}

pub emit_head-Runs : (c : SidecarInput) → Runs (emit_head c) (value, []) (next_key, in_object ∷ [])
unfolding emit_head run
emit_head-Runs c = simp json_laws

pub emit_fingerprint-IsMember : (fp : CrashFingerprint) → IsMember (emit_fingerprint fp)
unfolding emit_fingerprint run
emit_fingerprint-IsMember fp stack = simp (json_laws, run-hex16)

pub emit_exception-IsMember : (code address : ℕ) → IsMember (emit_exception code address)
unfolding emit_exception run
emit_exception-IsMember code address stack = simp (run-hex8, run-hex16)

pub emit_faulting_module-IsMember : (m : Option (Bytes × ℕ)) → IsMember (emit_faulting_module m)
unfolding emit_faulting_module run
emit_faulting_module-IsMember none stack = refl
emit_faulting_module-IsMember (some (name, rva)) stack = simp (json_laws, run-hex)

register_item-IsItem : (o : InFlightObject) → IsItem (register_item o)
unfolding register_item run
register_item-IsItem o = (λ stack. simp json_laws, λ stack. simp json_laws)

stack_item-IsItem : (o : InFlightObject) → IsItem (stack_item o)
unfolding stack_item run
stack_item-IsItem o = (λ stack. simp json_laws, λ stack. simp json_laws)

hit_item-IsItem : (s : Option Snapshot) (h : StackModuleHit) → IsItem (hit_item s h)
unfolding hit_item run
hit_item-IsItem s h = (λ stack. simp json_laws, λ stack. simp json_laws)

frame_item-IsItem : (s : Option Snapshot) (f : ModStackFrame) → IsItem (frame_item s f)
unfolding frame_item run
frame_item-IsItem s f = (λ stack. simp json_laws, λ stack. simp json_laws)

-- A list of values as the member of an object.
pub list_run {ℓ} :
    {A : Type ℓ} (f : A → Bytes) (xs : List A)
    → ((x : A) → IsItem (f x))
    → (stack : List Context)
    → run (listed (map f xs) ++ codes "],\n") (first_item, in_array ∷ in_object ∷ stack)
      ≡ some (next_key, in_object ∷ stack)
unfolding run
list_run f xs h stack = items_run f xs h (codes ",\n") (in_object ∷ stack)

pub emit_objects_in_flight-IsMember :
    (set : Option InFlightSet) → IsMember (emit_objects_in_flight set)
unfolding emit_objects_in_flight run
emit_objects_in_flight-IsMember set stack =
    list_run register_item (objects_of set) register_item-IsItem stack

pub emit_stack_objects-IsMember : (set : InFlightSet) → IsMember (emit_stack_objects set)
unfolding emit_stack_objects run
emit_stack_objects-IsMember set stack = list_run stack_item set.items stack_item-IsItem stack

pub emit_stack_modules-IsMember :
    (s : Option Snapshot) (slots : List ℕ) → IsMember (emit_stack_modules s slots)
unfolding emit_stack_modules run
emit_stack_modules-IsMember s slots stack =
    simp
      (json_laws, items_run (hit_item s) (sort_hits [] (scan_of s slots).hits) (hit_item-IsItem s))

pub emit_call_stack_mods-IsMember :
    (s : Option Snapshot) (fs : List ModStackFrame) → IsMember (emit_call_stack_mods s fs)
unfolding emit_call_stack_mods run
emit_call_stack_mods-IsMember s fs stack =
    list_run (frame_item s) (first_frames [] (frames_of s fs)) (frame_item-IsItem s) stack

pub emit_build-IsMember :
    (s : Option Snapshot) (z : ℤ) (cls : CrashClass) → IsMember (emit_build s z cls)
unfolding emit_build run
emit_build-IsMember s z cls stack = simp json_laws
