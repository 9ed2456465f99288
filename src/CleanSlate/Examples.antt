-- ===== src/CleanSlate/Examples.antt =====
-- Tests of the scan of a game's folder, and its theorems at concrete folders.
use redscope.Base.{
  ◌+◌, ◌≡◌, refl, Bool, true, false, none, List, [], ◌∷◌, arith, Bytes, str_eq, length, codes,
}
use redscope.Base.Int.{pos}
use redscope.Json.Accept.{IsJson}
use redscope.CleanSlate.{
  mo2, vortex, none_found, norm_rel, is_one_of, is_framework, is_manager_marker,
  is_vanilla_baseline_file, FoundFile, ScanContext, find_source, judge_file, file_class, is_skipped,
  count_file, classify, scan_files, scan_loaders, new_report, manager_detail_of, scan,
  detect_manager,
}
use redscope.CleanSlate.Counted.{IsCounted, scan-leftovers}
use redscope.CleanSlate.Leftover.{AreLeftovers}
use redscope.CleanSlate.Document.{to_json, to_json-IsJson}
use redscope.CleanSlate.Plan.{
  put_dir, put_file, add_dirs, add_files, add_mods, add_configs, plan_full_clean,
}
use redscope.CleanSlate.Plan.Spared.{IsSpared, IsPlan, plan_full_clean-IsPlan}

abbrev deployed : ScanContext
deployed = record {
  manager = vortex;
  mo2_running = false;
  game_dir = codes "C:\\Game";
  mo2_overlay = none;
  sources = (codes "r6\\scripts\\a.reds", codes "A") ∷ [];
}

abbrev found : Bytes → Bytes → FoundFile
found rel name = record { rel_path = rel; name_lower = name; physical = true }

abbrev walk : List FoundFile
walk =
    found (codes "r6/Scripts/A.reds") (codes "a.reds")
    ∷ found (codes "r6\\scripts\\b.reds") (codes "b.reds")
    ∷ found (codes "red4ext\\plugins\\x\\ArchiveXL.dll") (codes "archivexl.dll")
    ∷ found (codes "engine\\config\\platform\\pc\\rendering.ini") (codes "rendering.ini")
    ∷ []

abbrev loaders : List FoundFile
loaders = found (codes "bin\\x64\\global.ini") (codes "global.ini") ∷ []

-- The deployed script counts as managed under another spelling; the file of the game is not counted.
counts :
    let r = scan deployed walk loaders in
    (r.scanned ≡ 4) × (r.managed_count ≡ 1) × (r.infra_count ≡ 2) × (r.loose_count ≡ 1)
unfolding scan scan_files scan_loaders new_report classify count_file file_class judge_file
    find_source norm_rel is_one_of is_framework is_manager_marker is_vanilla_baseline_file
    is_skipped manager_detail_of str_eq
counts = (refl, refl, refl, refl)

managers :
    (detect_manager true true false ≡ mo2)
    × (detect_manager false false true ≡ vortex)
    × (detect_manager false false false ≡ none_found)
unfolding detect_manager
managers = (refl, refl, refl)

scan-leftovers_example :
    IsCounted (scan deployed walk loaders)
    × AreLeftovers deployed walk (scan deployed walk loaders).findings
scan-leftovers_example = scan-leftovers deployed walk loaders (omega arith) (omega arith)

abbrev mods : List Bytes
mods = codes "mods\\night" ∷ []

abbrev configs : List Bytes
configs =
    codes "engine\\config\\platform\\pc\\Rendering.ini"
    ∷ codes "engine\\config\\platform\\pc\\x.ini"
    ∷ []

abbrev nothing_else : Bytes → Bool
nothing_else s = false

planned : let r = plan_full_clean nothing_else mods configs in (r.dirs ≡ 1) × (r.files ≡ 1)
unfolding plan_full_clean add_dirs add_files add_mods add_configs put_dir put_file
    is_vanilla_baseline_file norm_rel is_one_of str_eq
planned = (refl, refl)

mods-IsSpared : IsSpared (codes "mods\\night")
unfolding IsSpared is_vanilla_baseline_file norm_rel is_one_of str_eq
mods-IsSpared = refl

plan_full_clean-IsPlan_example :
    IsPlan (length mods + length configs + 24) (plan_full_clean nothing_else mods configs)
plan_full_clean-IsPlan_example =
    plan_full_clean-IsPlan nothing_else mods configs (omega arith) (mods-IsSpared, tt)

to_json-IsJson_example : IsJson (to_json (pos 1700000000) (scan deployed walk loaders))
to_json-IsJson_example = to_json-IsJson (pos 1700000000) (scan deployed walk loaders)
