-- ===== src/Sidecar/Report/Sections/Members.antt =====
-- src/report/JsonSidecar.cpp, `BuildJsonSidecar`: the sections from the state of the engine on are
-- members of an object of JSON, and the whole text is a document of JSON.
use redscope.Base.{
  ◌≡◌, refl, inl, inr, true, false, ◌&&◌, Option, none, some, List, [], ◌∷◌, ◌++◌, append_assoc,
  ltb, Bool-cases, Bytes, length, take, codes,
}
use redscope.GameState.{GameStateEntry, GameStateLive}
use redscope.Json.Accept.{
  Context, in_object, value, first_key, next_key, after, run, Runs, run-append, IsJson,
}
use redscope.Json.Lists.{IsItem, json_text-IsItem, items_run, json_laws}
use redscope.ScriptStack.{ThreadStack}
use redscope.Session.{ModSnapshot, ModDiff}
use redscope.Sidecar.{emit_hardware_json, emit_setup_integrity, emit_archive_conflicts}
use redscope.Sidecar.Parts.{
  IsMember, emit_hardware_json-IsMember, emit_setup_integrity-IsMember,
  emit_archive_conflicts-IsMember,
}
use redscope.Sidecar.Report.{
  SidecarInput, emit_head, emit_fingerprint, emit_exception, emit_faulting_module,
  emit_objects_in_flight, emit_stack_objects, emit_stack_modules, emit_call_stack_mods, emit_build,
}
use redscope.Sidecar.Report.Sections.{
  engine_part, gpu_memory_part, oom_part, engine_value, emit_engine_state, max_scripted_frames,
  innermost_first, scripted_item, emit_scripted_frames, layer_item, chain_item, active_chains,
  emit_wrap_chains, added_item, removed_item, updated_item, diff_value, emit_mods_changed,
  entry_texts, game_state_value, put_entry, emit_game_state, json_sidecar_text,
}
use redscope.Sidecar.Report.Valid.{
  emit_head-Runs, emit_fingerprint-IsMember, emit_exception-IsMember, emit_faulting_module-IsMember,
  emit_objects_in_flight-IsMember, emit_stack_objects-IsMember, emit_stack_modules-IsMember,
  emit_call_stack_mods-IsMember, emit_build-IsMember, list_run,
}
use redscope.Sidecar.Valid.{member_run, inventory_run}
use redscope.Snapshot.{Snapshot}
use redscope.WrapChain.{WrapLayer, WrapChainEntry}

engine_run :
    (s : Snapshot) (t : Bytes) (stack : List Context)
    → run (engine_part s ++ t) (first_key, in_object ∷ stack) ≡ run t (after, in_object ∷ stack)
unfolding engine_part run
engine_run s t stack = elim (Bool-cases s.engine_read_ok) [
  | inl e ↦ rw e (simp (append_assoc, json_laws))
  | inr e ↦ rw e refl
]

gpu_memory_run :
    (s : Snapshot) (t : Bytes) (stack : List Context)
    → run (gpu_memory_part s ++ (b',' ∷ t)) (after, in_object ∷ stack)
      ≡ run (b',' ∷ t) (after, in_object ∷ stack)
unfolding gpu_memory_part run
gpu_memory_run s t stack = elim (Bool-cases s.gpu_read_ok) [
  | inl e ↦ rw e (simp (append_assoc, json_laws))
  | inr e ↦ rw e refl
]

oom_run :
    (basis t : Bytes) (stack : List Context)
    → run (oom_part basis ++ t) (after, in_object ∷ stack) ≡ run t (after, in_object ∷ stack)
unfolding oom_part run
oom_run [] t stack = refl
oom_run (c ∷ s) t stack = simp json_laws

engine_value-Runs :
    (s : Snapshot) (stack : List Context)
    → Runs (engine_value s) (value, in_object ∷ stack) (next_key, in_object ∷ stack)
unfolding engine_value run
engine_value-Runs s stack = simp (json_laws, engine_run, gpu_memory_run, oom_run)

emit_engine_state-IsMember : (s : Option Snapshot) → IsMember (emit_engine_state s)
unfolding emit_engine_state run
emit_engine_state-IsMember none stack = refl
emit_engine_state-IsMember (some s) stack = elim (Bool-cases s.has_data) [
  | inl e ↦ rw e (engine_value-Runs s stack)
  | inr e ↦ rw e refl
]

scripted_item-IsItem : (f : Bytes × Bytes) → IsItem (scripted_item f)
unfolding scripted_item
scripted_item-IsItem f = json_text-IsItem f.1

emit_scripted_frames-IsMember : (stack : ThreadStack) → IsMember (emit_scripted_frames stack)
unfolding emit_scripted_frames run
emit_scripted_frames-IsMember frames stack =
    list_run scripted_item (take max_scripted_frames (innermost_first frames)) scripted_item-IsItem
      stack

layer_item-IsItem : (l : WrapLayer) → IsItem (layer_item l)
unfolding layer_item run
layer_item-IsItem l = (λ stack. simp json_laws, λ stack. simp json_laws)

chain_item-IsItem : (c : Bytes × WrapChainEntry) → IsItem (chain_item c)
unfolding chain_item run
chain_item-IsItem c = (
  λ stack. simp (json_laws, items_run layer_item c.1.layers layer_item-IsItem),
  λ stack. simp (json_laws, items_run layer_item c.1.layers layer_item-IsItem),
)

emit_wrap_chains-IsMember :
    (s : Option Snapshot) (frames : ThreadStack) → IsMember (emit_wrap_chains s frames)
unfolding emit_wrap_chains run
emit_wrap_chains-IsMember s frames stack =
    list_run chain_item (active_chains s frames) chain_item-IsItem stack

added_item-IsItem : (m : ModSnapshot) → IsItem (added_item m)
unfolding added_item run
added_item-IsItem m = (λ stack. simp json_laws, λ stack. simp json_laws)

removed_item-IsItem : (m : ModSnapshot) → IsItem (removed_item m)
unfolding removed_item run
removed_item-IsItem m = (λ stack. simp json_laws, λ stack. simp json_laws)

updated_item-IsItem : (u : ModSnapshot × ModSnapshot) → IsItem (updated_item u)
unfolding updated_item run
updated_item-IsItem u = (λ stack. simp json_laws, λ stack. simp json_laws)

diff_value-Runs :
    (d : ModDiff) (stack : List Context)
    → Runs (diff_value d) (value, in_object ∷ stack) (next_key, in_object ∷ stack)
unfolding diff_value run
diff_value-Runs d stack = simp (
  items_run added_item (take 64 d.added) added_item-IsItem,
  items_run removed_item (take 64 d.removed) removed_item-IsItem,
  items_run updated_item (take 64 d.updated) updated_item-IsItem,
)

emit_mods_changed-IsMember : (s : Option Snapshot) → IsMember (emit_mods_changed s)
unfolding emit_mods_changed run
emit_mods_changed-IsMember none stack = refl
emit_mods_changed-IsMember (some s) stack =
    elim (Bool-cases (s.prior_file_present && s.diff_parsed_ok)) [
      | inl e ↦ rw e (diff_value-Runs s.mod_diff stack)
      | inr e ↦ rw e refl
    ]

-- An entry behind a first one, and a first one, before entries that are known to be read.
more_entry :
    (k v rest : Bytes) (stack : List Context)
    → Runs
        (rest ++ codes " },\n")
        (after, in_object ∷ in_object ∷ stack)
        (next_key, in_object ∷ stack)
    → Runs
        (put_entry true k v rest rest ++ codes " },\n")
        (after, in_object ∷ in_object ∷ stack)
        (next_key, in_object ∷ stack)
unfolding run
more_entry [] v rest stack h = h
more_entry (c ∷ k) v rest stack h = simp (append_assoc, json_laws, h)

more_entries :
    (es : List GameStateEntry) (stack : List Context)
    → Runs
        (entry_texts true es ++ codes " },\n")
        (after, in_object ∷ in_object ∷ stack)
        (next_key, in_object ∷ stack)
unfolding entry_texts run
more_entries [] stack = refl
more_entries (e ∷ es) stack =
    more_entry e.key e.value (entry_texts true es) stack (more_entries es stack)

first_entry :
    (k v without rest : Bytes) (stack : List Context)
    → Runs
        (without ++ codes " },\n")
        (first_key, in_object ∷ in_object ∷ stack)
        (next_key, in_object ∷ stack)
    → Runs
        (rest ++ codes " },\n")
        (after, in_object ∷ in_object ∷ stack)
        (next_key, in_object ∷ stack)
    → Runs
        (put_entry false k v without rest ++ codes " },\n")
        (first_key, in_object ∷ in_object ∷ stack)
        (next_key, in_object ∷ stack)
unfolding run
first_entry [] v without rest stack w h = w
first_entry (c ∷ k) v without rest stack w h = simp (append_assoc, json_laws, h)

entries_run :
    (es : List GameStateEntry) (stack : List Context)
    → Runs
        (entry_texts false es ++ codes " },\n")
        (first_key, in_object ∷ in_object ∷ stack)
        (next_key, in_object ∷ stack)
unfolding entry_texts run
entries_run [] stack = refl
entries_run (e ∷ es) stack =
    first_entry e.key e.value (entry_texts false es) (entry_texts true es) stack
      (entries_run es stack) (more_entries es stack)

game_state_value-Runs :
    (g : GameStateLive) (stack : List Context)
    → Runs (game_state_value g) (value, in_object ∷ stack) (next_key, in_object ∷ stack)
unfolding game_state_value run
game_state_value-Runs g stack = elim (Bool-cases (g.has_data && ltb 0 (length g.entries))) [
  | inl e ↦ rw e (entries_run g.entries stack)
  | inr e ↦ rw e refl
]

emit_game_state-IsMember : (s : Option Snapshot) → IsMember (emit_game_state s)
unfolding emit_game_state run
emit_game_state-IsMember none stack = refl
emit_game_state-IsMember (some s) stack = game_state_value-Runs s.game_state_live stack

head_run :
    (c : SidecarInput) (t : Bytes)
    → run (emit_head c ++ t) (value, []) ≡ run t (next_key, in_object ∷ [])
head_run c t = run-append (emit_head c) t (value, []) (next_key, in_object ∷ []) (emit_head-Runs c)

-- All that is appended for the file beside a crash report is one value of JSON.
pub json_sidecar_text-IsJson :
    (c : SidecarInput) (s : Option Snapshot) → IsJson (json_sidecar_text c s)
unfolding json_sidecar_text run
json_sidecar_text-IsJson c s = simp (
  head_run,
  member_run (emit_fingerprint c.fingerprint) (emit_fingerprint-IsMember c.fingerprint),
  member_run (emit_exception c.code c.address) (emit_exception-IsMember c.code c.address),
  member_run (emit_faulting_module c.faulting_module)
      (emit_faulting_module-IsMember c.faulting_module),
  member_run (emit_objects_in_flight c.in_flight) (emit_objects_in_flight-IsMember c.in_flight),
  member_run (emit_stack_objects c.stack_objects) (emit_stack_objects-IsMember c.stack_objects),
  member_run (emit_stack_modules s c.slots) (emit_stack_modules-IsMember s c.slots),
  member_run (emit_call_stack_mods s c.mod_frames) (emit_call_stack_mods-IsMember s c.mod_frames),
  member_run (emit_build s c.uptime_ns_at_crash c.crash_class)
      (emit_build-IsMember s c.uptime_ns_at_crash c.crash_class),
  member_run (emit_engine_state s) (emit_engine_state-IsMember s),
  member_run (emit_scripted_frames c.script_stack) (emit_scripted_frames-IsMember c.script_stack),
  member_run (emit_wrap_chains s c.script_stack) (emit_wrap_chains-IsMember s c.script_stack),
  member_run (emit_mods_changed s) (emit_mods_changed-IsMember s),
  member_run (emit_game_state s) (emit_game_state-IsMember s),
  member_run (emit_hardware_json s) (emit_hardware_json-IsMember s),
  member_run (emit_setup_integrity s) (emit_setup_integrity-IsMember s),
  member_run (emit_archive_conflicts s) (emit_archive_conflicts-IsMember s),
  inventory_run s,
)
