-- ===== src/CrashClass.antt =====
-- src/report/CrashClass.h and src/report/CrashClass.cpp: whether a crash came out of script code.
-- The stored class (`CurrentCrashClass`) is one variable, and the two accessors are not modelled.
pub mod Decides
pub mod Examples
use redscope.Base.{
  ℕ, Bool, false, ◌||◌, Option, none, some, List, [], ◌∷◌, ltb, if◌then◌else◌, Bytes, CStr, codes,
}
use redscope.Text.{iequals_ascii, icontains_ascii}

pub data CrashClass : Type 0 where
  unknown native scripted : CrashClass

pub record FrameView : Type 0 where
  pub module_name : CStr
  pub symbol_name : CStr

unfoldable pub is_red4ext_module : CStr → Bool
is_red4ext_module name = iequals_ascii name (some (codes "RED4ext.dll"))

abbrev pub patterns : List Bytes
patterns =
    codes "CClass::Execute"
    ∷ codes "CBaseFunction::Execute"
    ∷ codes "CScriptedFunction"
    ∷ codes "CStackFrame"
    ∷ codes "CallScriptFunction"
    ∷ codes "ScriptFunction::Execute"
    ∷ []

-- The loop over the patterns, with its early return.
unfoldable pub holds_any : CStr → List Bytes → Bool
holds_any s [] = false
holds_any s (pat ∷ pats) = icontains_ascii s (some pat) || holds_any s pats

unfoldable pub is_script_runtime_symbol : CStr → Bool
unfolding holds_any
is_script_runtime_symbol none = false
is_script_runtime_symbol (some []) = false
is_script_runtime_symbol (some (c ∷ s)) = holds_any (some (c ∷ s)) patterns

-- The loop over the frames, with its early returns.
unfoldable pub classify_frames : List FrameView → CrashClass
classify_frames [] = CrashClass.native
classify_frames (f ∷ fs) =
    let rest = classify_frames fs in
    if is_red4ext_module f.module_name
    then CrashClass.scripted
    else if is_script_runtime_symbol f.symbol_name
    then CrashClass.scripted
    else rest

-- `none` is the null pointer; `count` is the length of the list.
unfoldable pub classify_crash : Option (List FrameView) → ℕ → CrashClass
unfolding classify_frames
classify_crash frames script_stack_depth =
    if ltb 0 script_stack_depth then CrashClass.scripted else elim frames [
      | none ↦ CrashClass.unknown
      | some [] ↦ CrashClass.unknown
      | some (f ∷ fs) ↦ classify_frames (f ∷ fs)
    ]

unfoldable pub crash_class_label : CrashClass → Bytes
crash_class_label CrashClass.native = codes "native"
crash_class_label CrashClass.scripted = codes "scripted"
crash_class_label CrashClass.unknown = codes "unknown"
