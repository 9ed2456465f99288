-- ===== src/Sidecar.antt =====
-- src/report/JsonSidecar.cpp: the sections that the two JSON files share, and the diagnostic file. A
-- section is the text that it appends; how much of it the buffer takes is in Sidecar/Written.antt.
pub mod StackModules
pub mod Report
pub mod Parts
pub mod Valid
pub mod Written
pub mod Examples
use redscope.Base.{
  ℕ, ◌/◌, Option, none, some, List, [], ◌∷◌, ◌++◌, map, if◌then◌else◌, Bytes, take, codes,
}
use redscope.Conflicts.{MissingDep, ArchiveConflicts}
use redscope.Inventory.{
  ModManager, none_found, mo2, vortex, ModType, red4ext, cet, redscript, tweakxl, archive, asi,
  unknown, InstalledMod, ModInventory, max_installed_mods,
}
use redscope.Json.{json_text, json_cstr, print_u, print_llu, json_bool, listed}
use redscope.Setup.{SetupIssue, SetupIntegrity}
use redscope.Snapshot.{GpuAdapter, HardwareSpecs, Snapshot}
use redscope.Stream.{is_empty}

unfoldable pub manager_name : ModManager → Bytes
manager_name none_found = codes "none"
manager_name mo2 = codes "MO2"
manager_name vortex = codes "Vortex"

unfoldable pub mod_type_name : ModType → Bytes
mod_type_name red4ext = codes "red4ext"
mod_type_name cet = codes "cet"
mod_type_name redscript = codes "redscript"
mod_type_name tweakxl = codes "tweakxl"
mod_type_name archive = codes "archive"
mod_type_name asi = codes "asi"
mod_type_name unknown = codes "unknown"

unfoldable pub subpath_part : Bytes → Bytes
subpath_part [] = []
subpath_part (c ∷ s) = codes ", \"subpath\": " ++ json_text (c ∷ s)

unfoldable pub archives_part : List Bytes → Bytes
archives_part [] = []
archives_part (a ∷ as_) =
    codes ", \"archives\": [" ++ (listed (map json_text (a ∷ as_)) ++ codes "]")

unfoldable pub mod_item : InstalledMod → Bytes
unfolding mod_type_name subpath_part archives_part
mod_item m =
    codes "{ \"name\": "
    ++ (json_text m.name
        ++ (codes ", \"version\": "
            ++ (json_text m.version
                ++ (codes ", \"enabled\": "
                    ++ (json_bool m.enabled
                        ++ (codes ", \"type\": "
                            ++ (json_text (mod_type_name m.type)
                                ++ (subpath_part m.subpath
                                    ++ (archives_part m.archives ++ codes " }")))))))))

-- Mods without a name are passed over.
unfoldable pub named_mods : List InstalledMod → List InstalledMod
named_mods [] = []
named_mods (m ∷ ms) = let rest = named_mods ms in if is_empty m.name then rest else m ∷ rest

unfoldable pub emit_mod_inventory : Option Snapshot → Bytes
unfolding manager_name named_mods mod_item
emit_mod_inventory none =
    codes "  \"modManager\": "
    ++ (json_text (codes "none")
        ++ (codes ",\n  \"modManagerDetails\": "
            ++ (json_text []
                ++ (codes ",\n  \"modTruncated\": "
                    ++ (print_u 0 ++ (codes ",\n  \"installedMods\": [" ++ codes "]\n"))))))
emit_mod_inventory (some s) =
    codes "  \"modManager\": "
    ++ (json_text (manager_name s.inventory.manager)
        ++ (codes ",\n  \"modManagerDetails\": "
            ++ (json_text s.inventory.manager_details
                ++ (codes ",\n  \"modTruncated\": "
                    ++ (print_u s.inventory.truncated
                        ++ (codes ",\n  \"installedMods\": ["
                            ++ (listed (
                                  map mod_item
                                    (named_mods (take max_installed_mods s.inventory.mods)))
                                ++ codes "]\n")))))))

abbrev pub mb : ℕ
mb = 1048576

-- The first adapter.
unfoldable pub gpu_part : List GpuAdapter → Bytes
gpu_part [] = []
gpu_part (g ∷ gs) =
    codes ", \"gpu\": "
    ++ (json_text g.name
        ++ (codes ", \"gpuDriver\": "
            ++ (json_text g.driver_version
                ++ (codes ", \"vramMB\": " ++ print_llu (g.vram_dedicated_bytes / mb)))))

unfoldable pub hardware_value : HardwareSpecs → Bytes
unfolding gpu_part
hardware_value hw =
    codes "{ \"cpu\": "
    ++ (json_text hw.cpu_name
        ++ (codes ", \"cpuCores\": "
            ++ (print_u hw.cpu_physical_cores
                ++ (codes ", \"cpuThreads\": "
                    ++ (print_u hw.cpu_logical_cores
                        ++ (codes ", \"cpuMaxMHz\": "
                            ++ (print_u hw.cpu_max_turbo_mhz
                                ++ (gpu_part hw.gpus
                                    ++ (codes ", \"ramTotalMB\": "
                                        ++ (print_llu (hw.ram_total_bytes / mb)
                                            ++ (codes ", \"ramType\": "
                                                ++ (json_text hw.ram_type
                                                    ++ (codes ", \"ramSpeedMHz\": "
                                                        ++ (print_u hw.ram_speed_mhz
                                                            ++ (codes ", \"os\": "
                                                            ++ (json_text hw.os_product_name
                                                            ++ (codes ", \"osVersion\": "
                                                            ++ (json_text hw.os_display_version
                                                            ++ (codes ", \"osBuild\": "
                                                            ++ (print_u hw.os_build
                                                            ++ (codes ", \"displayW\": "
                                                            ++ (print_u hw.display_width
                                                            ++ (codes ", \"displayH\": "
                                                            ++ (print_u hw.display_height
                                                            ++ (codes ", \"displayHz\": "
                                                            ++ (print_u hw.display_refresh_hz
                                                            ++ (codes ", \"displayHdr\": "
                                                            ++ (json_text hw.display_hdr_state
                                                            ++ codes
                                                            " },\n"))))))))))))))))))))))))))))

unfoldable pub emit_hardware_json : Option Snapshot → Bytes
unfolding hardware_value
emit_hardware_json none = codes "  \"hardware\": null,\n"
emit_hardware_json (some s) = codes "  \"hardware\": " ++ hardware_value s.hardware

abbrev pub texts : List Bytes → Bytes
texts xs = listed (map json_text xs)

unfoldable pub group_item : List Bytes → Bytes
group_item mods = codes "{ \"mods\": [" ++ (texts mods ++ codes "] }")

unfoldable pub missing_item : MissingDep → Bytes
missing_item d =
    codes "{ \"mod\": "
    ++ (json_text d.mod_name ++ (codes ", \"requires\": [" ++ (texts d.required ++ codes "] }")))

unfoldable pub conflicts_value : ArchiveConflicts → Bytes
unfolding group_item missing_item
conflicts_value ac =
    codes "{ \"curated\": { \"active\": ["
    ++ (listed (map group_item ac.active)
        ++ (codes "], \"missingDeps\": ["
            ++ (listed (map missing_item ac.missing_deps)
                ++ (codes "], \"dbModCount\": "
                    ++ (print_u ac.db_mod_count
                        ++ (codes ", \"truncated\": "
                            ++ (print_u ac.truncated ++ codes " } },\n")))))))

unfoldable pub emit_archive_conflicts : Option Snapshot → Bytes
unfolding conflicts_value
emit_archive_conflicts none = codes "  \"archiveConflicts\": null,\n"
emit_archive_conflicts (some s) =
    codes "  \"archiveConflicts\": " ++ conflicts_value s.archive_conflicts

unfoldable pub issue_item : SetupIssue → Bytes
issue_item i =
    codes "{ \"kind\": "
    ++ (json_text i.kind ++ (codes ", \"detail\": " ++ (json_text i.detail ++ codes " }")))

unfoldable pub setup_value : SetupIntegrity → Bytes
unfolding issue_item
setup_value si =
    codes "{ \"issues\": ["
    ++ (listed (map issue_item si.issues)
        ++ (codes "], \"truncated\": " ++ (print_u si.truncated ++ codes " },\n")))

unfoldable pub emit_setup_integrity : Option Snapshot → Bytes
unfolding setup_value
emit_setup_integrity none = codes "  \"setupIntegrity\": null,\n"
emit_setup_integrity (some s) = codes "  \"setupIntegrity\": " ++ setup_value s.setup_integrity

abbrev pub version_of : Option Snapshot → Bytes
version_of none = []
version_of (some s) = s.red4ext_version

abbrev pub build_of : Option Snapshot → Bytes
build_of none = []
build_of (some s) = s.build_string

-- All that `BuildDiagnosticJson` appends, one text behind the other.
unfoldable pub diagnostic_json_text : Option Snapshot → Bytes
unfolding emit_hardware_json emit_setup_integrity emit_archive_conflicts emit_mod_inventory
diagnostic_json_text s =
    codes "{\n  \"reportType\": \"diagnostic\",\n  \"tool\": \"REDscope\",\n  \"red4extVersion\": "
    ++ (json_text (version_of s)
        ++ (codes ",\n  \"buildId\": "
            ++ (json_text (build_of s)
                ++ (codes ",\n"
                    ++ (emit_hardware_json s
                        ++ (emit_setup_integrity s
                            ++ (emit_archive_conflicts s
                                ++ (emit_mod_inventory s ++ codes "}\n"))))))))
