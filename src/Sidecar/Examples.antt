-- ===== src/Sidecar/Examples.antt =====
-- Tests of the JSON file, and its theorems at concrete inputs.
use redscope.Base.{
  ℕ, ◌≡◌, refl, ap, ◌⊎◌, true, false, none, some, List, [], ◌∷◌, arith, Bytes, codes,
}
use redscope.Base.Int.{pos}
use redscope.CrashClass.{CrashClass}
use redscope.Fingerprint.{CrashFingerprint}
use redscope.Fingerprint.Examples.{snapshot}
use redscope.Modules.Examples.{table}
use redscope.ScriptStack.{new_stack}
use redscope.Sidecar.{diagnostic_json_text}
use redscope.Sidecar.Report.{SidecarInput, first_frames}
use redscope.Sidecar.Report.Sections.{json_sidecar_text, normalize_wrap_method_key}
use redscope.Buffer.{PreallocatedBuffer}
use redscope.Buffer.Laws.{Call, appends_char}
use redscope.Sidecar.Written.{
  write_json_sidecar_file, diagnostic_bytes, read_diagnostic_json, IsDivision, IsWhole, IsCut,
  build_json_sidecar-IsJson,
}
use redscope.Modules.{find_module_by_pc}
use redscope.Sidecar.StackModules.{bump, module_of, collect_from, collect_stack_modules, sort_hits}
use redscope.Sidecar.StackModules.Counts.{
  Falls, AreDistinct, names, hits_of, words_in, collect_stack_modules-hits_of,
}
use redscope.Stream.{strip_end, take_while}

abbrev fault : CrashFingerprint
fault = record {
  primary = 0x1234;
  loose = 0x56;
  mod_set = 0;
  fault_site_unreliable = false;
  has_module = true;
  primary_id = codes "1234";
  loose_id = codes "0056";
}

abbrev crash : SidecarInput
crash = record {
  fingerprint = fault;
  code = 0xC0000005;
  address = 0x180000400;
  crash_time_unix = pos 1700000000;
  faulting_module = some (codes "ArchiveXL.dll", 0x400);
  in_flight = none;
  stack_objects = record { items = [] };
  slots = 0x180000400 ∷ 0 ∷ 0x180000800 ∷ 0x140000010 ∷ [];
  mod_frames =
      record { frame_index = 2; name_index = 1 } ∷ record { frame_index = 4; name_index = 1 } ∷ [];
  uptime_ns_at_crash = pos 5;
  crash_class = CrashClass.native;
  script_stack = new_stack;
}

-- One call of `AppendChar` for each byte.
abbrev by_byte : Bytes → List Call
by_byte [] = []
by_byte (b ∷ t) = appends_char b ∷ by_byte t

by_byte-IsDivision : IsDivision by_byte
by_byte-IsDivision [] = (tt, refl)
by_byte-IsDivision (b ∷ t) = let h = by_byte-IsDivision t in ((tt, h.0), ap (λ l. b ∷ l) h.1)

abbrev sidecar_buffer : PreallocatedBuffer
sidecar_buffer = record { data_ = true; contents = 0 ∷ []; capacity = 1048576; overflow = true }

build_json_sidecar-IsJson_example :
    (IsWhole
        (json_sidecar_text crash (some snapshot))
        (write_json_sidecar_file by_byte crash (some snapshot) sidecar_buffer)
      ⊎ IsCut
          (json_sidecar_text crash (some snapshot))
          1048576
          (write_json_sidecar_file by_byte crash (some snapshot) sidecar_buffer))
    × (IsWhole
          (diagnostic_json_text (some snapshot))
          (read_diagnostic_json by_byte true (some snapshot))
        ⊎ IsCut
            (diagnostic_json_text (some snapshot))
            diagnostic_bytes
            (read_diagnostic_json by_byte true (some snapshot)))
build_json_sidecar-IsJson_example =
    build_json_sidecar-IsJson by_byte crash (some snapshot) sidecar_buffer by_byte-IsDivision refl
      (record { fits = omega arith; no_block = λ e. absurd (cc) })

first_of_each : first_frames [] crash.mod_frames ≡ record { frame_index = 2; name_index = 1 } ∷ []
unfolding first_frames
first_of_each = refl

wrap_key :
    normalize_wrap_method_key (codes "PlayerPuppet.OnHit \t;Event") ≡ codes "PlayerPuppet.OnHit"
unfolding normalize_wrap_method_key strip_end take_while
wrap_key = refl

has_room : (collect_stack_modules table crash.slots).overflow ≡ false
unfolding collect_stack_modules collect_from find_module_by_pc module_of bump
has_room = refl

collect_stack_modules-hits_of_example :
    Falls (sort_hits [] (collect_stack_modules table crash.slots).hits)
    × AreDistinct (names (sort_hits [] (collect_stack_modules table crash.slots).hits))
    × ((i : ℕ)
        → hits_of i (sort_hits [] (collect_stack_modules table crash.slots).hits)
          ≡ words_in i table crash.slots)
collect_stack_modules-hits_of_example = collect_stack_modules-hits_of table crash.slots has_room
