-- ===== src/CrashClass/Examples.antt =====
-- Tests of the crash class, and its theorem on a stack with a frame of the script runtime.
use redscope.Base.{◌≡◌, refl, none, some, [], ◌∷◌, codes}
use redscope.Text.{to_lower_ascii, iequals_ascii}
use redscope.CrashClass.{
  CrashClass, FrameView, is_red4ext_module, is_script_runtime_symbol, classify_crash,
}

abbrev native_frame : FrameView
native_frame = record { module_name = some (codes "Cyberpunk2077.exe"); symbol_name = none }

abbrev script_frame : FrameView
script_frame = record {
  module_name = some (codes "red4EXT.dll");
  symbol_name = some (codes "ns::cclass::execute+0x4");
}

native_stack : classify_crash (some (native_frame ∷ [])) 0 ≡ CrashClass.native
unfolding classify_crash iequals_ascii is_red4ext_module to_lower_ascii is_script_runtime_symbol
native_stack = refl
