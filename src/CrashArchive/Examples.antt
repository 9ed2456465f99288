-- ===== src/CrashArchive/Examples.antt =====
-- Tests of the list of crashes, and its theorem at concrete files.
use redscope.Base.{◌≡◌, refl, false, none, some, List, [], ◌∷◌, codes}
use redscope.Base.Int.{pos}
use redscope.Base.Sort.{sort}
use redscope.Format.{digits_onto, decimal}
use redscope.Json.{print_llu}
use redscope.Json.Accept.{IsJson}
use redscope.CrashArchive.{
  escape_byte, append_escaped, append_json_str, low_hex4, CrashFields, module_text, put_module,
  module_texts, fault_text, summary_of, project_crash_summary, is_blank, objects_left,
  build_crash_array, CrashFile, put_content, summaries_of, read_all_crashes_json,
}
use redscope.CrashArchive.Valid.{read_all_crashes_json-IsJson}

abbrev fields : CrashFields
fields = record {
  crash_id = codes "A1";
  loose_id = [];
  crash_class = codes "native";
  unsigned_time = none;
  signed_time = some (pos 7);
  fault_name = [];
  fault_site_unreliable = false;
  stack_modules =
      record { name = some (codes "a.dll"); hits = 2; kind = codes "mod" }
      ∷ record { name = none; hits = 9; kind = [] }
      ∷ [];
}

abbrev folder : List CrashFile
folder =
    record { time = 1; content = some (some fields) }
    ∷ record { time = 3; content = some none }
    ∷ record { time = 2; content = none }
    ∷ []

escapes : append_json_str (31 ∷ b'"' ∷ []) ≡ codes "\"\\u001f\\\"\""
unfolding append_json_str append_escaped escape_byte low_hex4 digits_onto
escapes = refl

listed :
    read_all_crashes_json 3 folder
    ≡ codes
        "[{\"crashId\":\"A1\",\"looseId\":\"\",\"crashTimeUnix\":7,\"crashClass\":\"native\",\"faultingModule\":null,\"faultSiteUnreliable\":false,\"stackModules\":[{\"name\":\"a.dll\",\"hits\":2,\"kind\":\"mod\"}]}]"
unfolding read_all_crashes_json summaries_of build_crash_array put_content project_crash_summary
    summary_of fault_text module_texts put_module module_text append_json_str append_escaped
    escape_byte print_llu decimal digits_onto objects_left is_blank sort
listed = refl

-- With a limit of one the newest file alone is looked at, which simdjson does not read.
newest_only : read_all_crashes_json 1 folder ≡ codes "[]"
unfolding read_all_crashes_json summaries_of build_crash_array put_content project_crash_summary
    objects_left is_blank sort
newest_only = refl

read_all_crashes_json-IsJson_example : IsJson (read_all_crashes_json 3 folder)
read_all_crashes_json-IsJson_example = read_all_crashes_json-IsJson 3 folder
