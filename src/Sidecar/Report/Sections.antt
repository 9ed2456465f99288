-- ===== src/Sidecar/Report/Sections.antt =====
-- src/report/JsonSidecar.cpp, `BuildJsonSidecar`: its sections from the state of the engine on, and the
-- whole text.
pub mod Members
use redscope.Base.{
  ℕ, zero, suc, Bool, true, false, not, ◌&&◌, ◌||◌, Option, none, some, List, [], ◌∷◌, ◌++◌, map,
  ltb, ◌==◌, if◌then◌else◌, Bytes, CStr, length, take, codes,
}
use mathlib.Core.List.{reverse}
use redscope.Base.Int.{ℤ, pos, negsuc}
use redscope.GameState.{GameStateEntry, GameStateLive}
use redscope.Json.{json_text, print_u, json_bool, listed}
use redscope.ScriptStack.{Frame, ThreadStack, visible}
use redscope.Session.{ModSnapshot, ModDiff}
use redscope.Sidecar.{
  emit_hardware_json, emit_setup_integrity, emit_archive_conflicts, emit_mod_inventory,
}
use redscope.Sidecar.Report.{
  SidecarInput, emit_head, emit_fingerprint, emit_exception, emit_faulting_module,
  emit_objects_in_flight, emit_stack_objects, emit_stack_modules, emit_call_stack_mods, emit_build,
}
use redscope.Snapshot.{Snapshot}
use redscope.Stream.{strip_end, take_while}
use redscope.WrapChain.{WrapLayer, WrapChainEntry, WrapChainTable, find_chain}

unfoldable pub engine_state_name : ℤ → Bytes
engine_state_name (pos zero) = codes "Idle"
engine_state_name (pos (suc zero)) = codes "BaseInitialization"
engine_state_name (pos (suc (suc zero))) = codes "Initialization"
engine_state_name (pos (suc (suc (suc zero)))) = codes "Running"
engine_state_name (pos (suc (suc (suc (suc n))))) = codes "(unknown)"
engine_state_name (negsuc n) = codes "(unknown)"

unfoldable pub engine_part : Snapshot → Bytes
unfolding engine_state_name
engine_part s =
    if s.engine_read_ok
    then codes "\"state\": "
      ++ (json_text (engine_state_name s.engine_state_raw)
          ++ (codes ", \"scriptsLoaded\": "
              ++ (json_bool s.scripts_loaded
                  ++ (codes ", \"closing\": "
                      ++ (json_bool s.is_closing
                          ++ (codes ", \"isEP1\": " ++ json_bool s.is_ep1))))))
    else codes "\"engineRead\": false"

unfoldable pub gpu_memory_part : Snapshot → Bytes
gpu_memory_part s =
    if s.gpu_read_ok
    then codes ", \"gpuUsedMB\": "
      ++ (print_u s.gpu_used_mb
          ++ (codes ", \"gpuBudgetMB\": "
              ++ (print_u s.gpu_budget_mb
                  ++ (codes ", \"gpuTotalMB\": " ++ print_u s.gpu_dedicated_mb))))
    else []

unfoldable pub oom_part : Bytes → Bytes
oom_part [] = []
oom_part (c ∷ s) = codes ", \"oomBasis\": " ++ json_text (c ∷ s)

unfoldable pub engine_value : Snapshot → Bytes
unfolding engine_part gpu_memory_part oom_part
engine_value s =
    codes "{ "
    ++ (engine_part s
        ++ (gpu_memory_part s
            ++ (codes ", \"oomSuspected\": "
                ++ (json_bool s.oom_suspected ++ (oom_part s.oom_basis ++ codes " },\n")))))

unfoldable pub emit_engine_state : Option Snapshot → Bytes
unfolding engine_value
emit_engine_state none = codes "  \"engineState\": null,\n"
emit_engine_state (some s) =
    codes "  \"engineState\": " ++ (if s.has_data then engine_value s else codes "null,\n")

-- `snprintf` into 256 bytes; without a class the name is written as it is.
abbrev pub frame_text : Bytes → CStr → Bytes
frame_text full none = full
frame_text full (some []) = full
frame_text full (some (c ∷ s)) = take 255 (full ++ (codes " on " ++ (c ∷ s)))

-- The names of the frames that have one, each with what is written of its frame.
unfoldable pub frame_texts : List Frame → List (Bytes × Bytes)
frame_texts [] = []
frame_texts (f ∷ fs) = put_frame f.full_name f.this_class_name (frame_texts fs)
  where
    put_frame : CStr → CStr → List (Bytes × Bytes) → List (Bytes × Bytes)
    put_frame none cls rest = rest
    put_frame (some full) cls rest = (full, frame_text full cls) ∷ rest

abbrev pub innermost_first : ThreadStack → List (Bytes × Bytes)
unfolding frame_texts
innermost_first stack = frame_texts (reverse (visible stack))

abbrev pub max_scripted_frames : ℕ
max_scripted_frames = 32

unfoldable pub scripted_item : Bytes × Bytes → Bytes
scripted_item f = json_text f.1

unfoldable pub emit_scripted_frames : ThreadStack → Bytes
unfolding scripted_item frame_texts
emit_scripted_frames stack =
    codes "  \"scriptedFrames\": ["
    ++ (listed (map scripted_item (take max_scripted_frames (innermost_first stack)))
        ++ codes "],\n")

-- `NormalizeWrapMethodKey` of src/snapshot/WrapChain.cpp, with `kWrapMethodKeyCap` for `cap`.
unfoldable pub normalize_wrap_method_key : Bytes → Bytes
unfolding strip_end take_while
normalize_wrap_method_key full =
    strip_end (λ c. c == b' ' || c == b'\t') (take 79 (take_while (λ c. not (c == b';')) full))

unfoldable pub layer_item : WrapLayer → Bytes
layer_item l =
    codes "{ \"modName\": "
    ++ (json_text l.mod_name
        ++ (codes ", \"file\": "
            ++ (json_text l.rel_file
                ++ (codes ", \"line\": " ++ (print_u l.line_number ++ codes " }")))))

unfoldable pub chain_item : Bytes × WrapChainEntry → Bytes
unfolding layer_item
chain_item c =
    codes "{ \"methodKey\": "
    ++ (json_text c.0
        ++ (codes ", \"layers\": [" ++ (listed (map layer_item c.1.layers) ++ codes "] }")))

-- A chain without layers is passed over.
abbrev pub with_chain :
    Bytes → Option WrapChainEntry → List (Bytes × WrapChainEntry) → List (Bytes × WrapChainEntry)
with_chain key none rest = rest
with_chain key (some e) rest = if ltb 0 (length e.layers) then (key, e) ∷ rest else rest

unfoldable pub chains_of : WrapChainTable → List (Bytes × Bytes) → List (Bytes × WrapChainEntry)
unfolding normalize_wrap_method_key find_chain
chains_of t [] = []
chains_of t (f ∷ fs) =
    let key = normalize_wrap_method_key f.0 in
    with_chain key (find_chain t (some key)) (chains_of t fs)

abbrev pub active_chains : Option Snapshot → ThreadStack → List (Bytes × WrapChainEntry)
unfolding chains_of frame_texts
active_chains none stack = []
active_chains (some s) stack =
    if s.wrap_scan_performed then take 8 (chains_of s.wrap_chains (innermost_first stack)) else []

unfoldable pub emit_wrap_chains : Option Snapshot → ThreadStack → Bytes
unfolding chain_item chains_of frame_texts
emit_wrap_chains s stack =
    codes "  \"wrapChains\": [" ++ (listed (map chain_item (active_chains s stack)) ++ codes "],\n")

unfoldable pub added_item : ModSnapshot → Bytes
added_item m =
    codes "{ \"name\": "
    ++ (json_text m.name ++ (codes ", \"version\": " ++ (json_text m.version ++ codes " }")))

unfoldable pub removed_item : ModSnapshot → Bytes
removed_item m = codes "{ \"name\": " ++ (json_text m.name ++ codes " }")

unfoldable pub updated_item : ModSnapshot × ModSnapshot → Bytes
updated_item u =
    codes "{ \"name\": "
    ++ (json_text u.1.name
        ++ (codes ", \"from\": "
            ++ (json_text u.0.version
                ++ (codes ", \"to\": " ++ (json_text u.1.version ++ codes " }")))))

unfoldable pub diff_value : ModDiff → Bytes
unfolding added_item removed_item updated_item
diff_value d =
    codes "{ \"added\": ["
    ++ (listed (map added_item (take 64 d.added))
        ++ (codes "], \"removed\": ["
            ++ (listed (map removed_item (take 64 d.removed))
                ++ (codes "], \"updated\": ["
                    ++ (listed (map updated_item (take 64 d.updated)) ++ codes "] },\n")))))

unfoldable pub emit_mods_changed : Option Snapshot → Bytes
unfolding diff_value
emit_mods_changed none = codes "  \"modsChangedSinceLastLaunch\": null,\n"
emit_mods_changed (some s) =
    codes "  \"modsChangedSinceLastLaunch\": "
    ++ (if s.prior_file_present && s.diff_parsed_ok then diff_value s.mod_diff else codes "null,\n")

-- An entry without a key is passed over.
abbrev pub put_entry : Bool → Bytes → Bytes → Bytes → Bytes → Bytes
put_entry emitted [] v without rest = without
put_entry true (c ∷ k) v without rest =
    codes ", " ++ (json_text (c ∷ k) ++ (codes ": " ++ (json_text v ++ rest)))
put_entry false (c ∷ k) v without rest = json_text (c ∷ k) ++ (codes ": " ++ (json_text v ++ rest))

-- `emitted` says whether an entry stands before these.
unfoldable pub entry_texts : Bool → List GameStateEntry → Bytes
entry_texts emitted [] = []
entry_texts emitted (e ∷ es) =
    put_entry emitted e.key e.value (entry_texts emitted es) (entry_texts true es)

unfoldable pub game_state_value : GameStateLive → Bytes
unfolding entry_texts
game_state_value g =
    if g.has_data && ltb 0 (length g.entries)
    then codes "{ " ++ (entry_texts false g.entries ++ codes " },\n")
    else codes "null,\n"

unfoldable pub emit_game_state : Option Snapshot → Bytes
unfolding game_state_value
emit_game_state none = codes "  \"gameStateLive\": null,\n"
emit_game_state (some s) = codes "  \"gameStateLive\": " ++ game_state_value s.game_state_live

-- All that `BuildJsonSidecar` appends, one text behind the other.
unfoldable pub json_sidecar_text : SidecarInput → Option Snapshot → Bytes
unfolding emit_head emit_fingerprint emit_exception emit_faulting_module emit_objects_in_flight
    emit_stack_objects emit_stack_modules emit_call_stack_mods emit_build emit_engine_state
    emit_scripted_frames emit_wrap_chains emit_mods_changed emit_game_state emit_hardware_json
    emit_setup_integrity emit_archive_conflicts emit_mod_inventory
json_sidecar_text c s =
    emit_head c
    ++ (emit_fingerprint c.fingerprint
        ++ (emit_exception c.code c.address
            ++ (emit_faulting_module c.faulting_module
                ++ (emit_objects_in_flight c.in_flight
                    ++ (emit_stack_objects c.stack_objects
                        ++ (emit_stack_modules s c.slots
                            ++ (emit_call_stack_mods s c.mod_frames
                                ++ (emit_build s c.uptime_ns_at_crash c.crash_class
                                    ++ (emit_engine_state s
                                        ++ (emit_scripted_frames c.script_stack
                                            ++ (emit_wrap_chains s c.script_stack
                                                ++ (emit_mods_changed s
                                                    ++ (emit_game_state s
                                                        ++ (emit_hardware_json s
                                                            ++ (emit_setup_integrity s
                                                            ++ (emit_archive_conflicts s
                                                            ++ (emit_mod_inventory s
                                                            ++ codes "}\n")))))))))))))))))
