-- ===== src/Fingerprint/Examples.antt =====
-- Tests of the fingerprint, and its theorems at concrete inputs.
use mathlib.Core.List.Perm
use redscope.Base.{
  ℕ, zero, suc, ◌<◌, ◌≡◌, refl, ◌≢◌, true, false, none, some, List, [], ◌∷◌, ◌++◌, arith, CStr,
  get_elem?, codes,
}
use redscope.Modules.{ModuleInfoFixed}
use redscope.Base.Int.{pos}
use redscope.Modules.Examples.{table, table-IsSorted}
use redscope.Snapshot.{HardwareSpecs, Snapshot}
use redscope.Inventory.{none_found, InstalledMod, unknown}
use redscope.Session.{no_diff}
use redscope.WrapChain.{no_chains}
use redscope.GameState.{no_game_state}
use redscope.ScriptStack.{new_stack}
use redscope.Fingerprint.{
  CrashFingerprint, compute_fingerprint_core, compute_mod_set_hash, game_unsymbolicated, game_exe,
}
use redscope.Fingerprint.Streams.{
  site_bytes, tail_bytes, loose_bytes, fnv1a, compute_fingerprint_core-streams,
}
use redscope.Fingerprint.ModSet.{compute_mod_set_hash-Perm}
use redscope.Fingerprint.Compute.{compute_fingerprint}
use redscope.Fingerprint.Compute.Tail.{IsReadable, compute_fingerprint_total}

abbrev build : CStr
build = some (codes "2.21")

abbrev tail_a : List CStr
tail_a = some (codes "FuncInner") ∷ some (codes "FuncOuter") ∷ []

compute_fingerprint_core-streams_example :
    let fp = compute_fingerprint_core 0xC0000005 build (some game_exe) 0x500 none tail_a 9 false in
    let site = site_bytes 0xC0000005 build (some game_exe) 0x500 none in
    (fp.primary ≡ fnv1a (site ++ tail_bytes tail_a))
    × (fp.loose ≡ fnv1a (site ++ loose_bytes (game_unsymbolicated (some game_exe) none) tail_a))
    × (fp.primary ≢ 0)
    × (fp.loose ≢ 0)
compute_fingerprint_core-streams_example =
    compute_fingerprint_core-streams 0xC0000005 build (some game_exe) 0x500 none tail_a 9 false

abbrev mod_a : InstalledMod
mod_a = record {
  name = codes "A";
  version = codes "1";
  subpath = [];
  archives = [];
  type = unknown;
  enabled = true;
}

abbrev mod_b : InstalledMod
mod_b = record {
  name = codes "B";
  version = codes "2";
  subpath = [];
  archives = [];
  type = unknown;
  enabled = true;
}

compute_mod_set_hash-Perm_example :
    compute_mod_set_hash (some (mod_b ∷ mod_a ∷ []))
    ≡ compute_mod_set_hash (some (mod_a ∷ mod_b ∷ []))
compute_mod_set_hash-Perm_example =
    compute_mod_set_hash-Perm (mod_b ∷ mod_a ∷ []) (mod_a ∷ mod_b ∷ []) (omega arith)
      (Perm.swap mod_a mod_b [])

abbrev no_hardware : HardwareSpecs
no_hardware = record {
  cpu_name = [];
  cpu_physical_cores = 0;
  cpu_logical_cores = 0;
  cpu_max_turbo_mhz = 0;
  gpus = [];
  ram_total_bytes = 0;
  ram_type = [];
  ram_speed_mhz = 0;
  os_product_name = [];
  os_display_version = [];
  os_build = 0;
  display_width = 0;
  display_height = 0;
  display_refresh_hz = 0;
  display_hdr_state = [];
}

abbrev pub snapshot : Snapshot
snapshot = record {
  game_uptime_ns = pos 0;
  red4ext_version = [];
  build_string = codes "2.21";
  modules = table;
  module_names = codes "Cyberpunk2077.exe" ∷ codes "ArchiveXL.dll" ∷ [];
  inventory = record {
    manager = none_found;
    manager_details = [];
    mods = mod_a ∷ [];
    truncated = 0;
  };
  hardware = no_hardware;
  by_dll = [];
  wrap_chains = no_chains;
  wrap_scan_performed = false;
  mod_diff = no_diff;
  prior_file_present = false;
  diff_parsed_ok = false;
  archive_conflicts = record { active = []; missing_deps = []; db_mod_count = 0; truncated = 0 };
  setup_integrity = record { issues = []; truncated = 0 };
  has_data = true;
  engine_read_ok = true;
  is_closing = false;
  scripts_loaded = true;
  engine_state_raw = pos 3;
  is_ep1 = false;
  oom_suspected = false;
  oom_basis = [];
  gpu_read_ok = false;
  gpu_used_mb = 0;
  gpu_budget_mb = 0;
  gpu_dedicated_mb = 0;
  game_state_live = no_game_state;
}

pub snapshot-IsReadable : IsReadable snapshot
snapshot-IsReadable = record { sorted = table-IsSorted; named = named }
  where
    named : (i : ℕ) (m : ModuleInfoFixed) → get_elem? table i ≡ some m → m.name_index < 2
    named zero m e = ground arith
    named (suc zero) m e = ground arith
    named (suc (suc i)) m e = cc

compute_fingerprint_total_example :
    (fp : CrashFingerprint) × (compute_fingerprint 0xC0000005 0x140000010
        (some snapshot)
        none
        none
        0
        new_stack
        7
        []
      ≡ some fp)
compute_fingerprint_total_example =
    compute_fingerprint_total 0xC0000005 0x140000010 snapshot none none 0 new_stack 7 []
      (refl, omega arith) snapshot-IsReadable
