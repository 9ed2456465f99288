-- ===== src/Snapshot.antt =====
-- src/snapshot/Snapshot.h: the snapshot, without the fields that nothing here reads.
use redscope.Base.{ℕ, Bool, Option, none, some, List, [], ◌∷◌, if◌then◌else◌, Bytes, str_eq}
use redscope.Base.Int.{ℤ}
use redscope.Conflicts.{ArchiveConflicts}
use redscope.GameState.{GameStateLive}
use redscope.Inventory.{ModInventory}
use redscope.Modules.{ModuleInfoFixed}
use redscope.Session.{ModDiff}
use redscope.Setup.{SetupIntegrity}
use redscope.WrapChain.{WrapChainTable}

-- src/snapshot/PluginMetadata.h; `version` and `authors` are what is read here.
pub record PluginInfo : Type 0 where
  pub version : Bytes
  pub authors : Bytes

-- src/snapshot/HardwareSpecs.h; what the JSON file reads.
pub record GpuAdapter : Type 0 where
  pub name : Bytes
  pub driver_version : Bytes
  pub vram_dedicated_bytes : ℕ

pub record HardwareSpecs : Type 0 where
  pub cpu_name : Bytes
  pub cpu_physical_cores : ℕ
  pub cpu_logical_cores : ℕ
  pub cpu_max_turbo_mhz : ℕ
  pub gpus : List GpuAdapter
  pub ram_total_bytes : ℕ
  pub ram_type : Bytes
  pub ram_speed_mhz : ℕ
  pub os_product_name : Bytes
  pub os_display_version : Bytes
  pub os_build : ℕ
  pub display_width : ℕ
  pub display_height : ℕ
  pub display_refresh_hz : ℕ
  pub display_hdr_state : Bytes

-- `has_data` to `gpu_dedicated_mb` are the fields of `engineLive`, `wrap_scan_performed` is one of
-- `wrapChains`, `prior_file_present` and `diff_parsed_ok` are two of `modDiff`.
pub record Snapshot : Type 0 where
  pub game_uptime_ns : ℤ
  pub red4ext_version : Bytes
  pub build_string : Bytes
  pub modules : List ModuleInfoFixed
  pub module_names : List Bytes
  pub inventory : ModInventory
  pub hardware : HardwareSpecs
  pub by_dll : List (Bytes × PluginInfo)
  pub wrap_chains : WrapChainTable
  pub wrap_scan_performed : Bool
  pub mod_diff : ModDiff
  pub prior_file_present : Bool
  pub diff_parsed_ok : Bool
  pub archive_conflicts : ArchiveConflicts
  pub setup_integrity : SetupIntegrity
  pub has_data : Bool
  pub engine_read_ok : Bool
  pub is_closing : Bool
  pub scripts_loaded : Bool
  pub engine_state_raw : ℤ
  pub is_ep1 : Bool
  pub oom_suspected : Bool
  pub oom_basis : Bytes
  pub gpu_read_ok : Bool
  pub gpu_used_mb : ℕ
  pub gpu_budget_mb : ℕ
  pub gpu_dedicated_mb : ℕ
  pub game_state_live : GameStateLive

abbrev pub module_name_cap : ℕ
module_name_cap = 48

-- `byDll.find(key)`.
unfoldable pub find_dll : Bytes → List (Bytes × PluginInfo) → Option PluginInfo
find_dll k [] = none
find_dll k ((j, p) ∷ m) = if str_eq j k then some p else find_dll k m
