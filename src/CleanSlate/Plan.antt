-- ===== src/CleanSlate/Plan.antt =====
-- src/cleanslate/CleanCore.cpp, `PlanFullClean`: what is to be removed for a clean install. The folders and
-- files that exist, the folders of mods and the files of the configuration are arguments.
pub mod Spared
use redscope.Base.{
  ℕ, ◌+◌, ◌-◌, ◌/◌, ◌%◌, ◌^◌, Bool, true, false, not, List, [], ◌∷◌, ◌++◌, if◌then◌else◌, Bytes,
  codes,
}
use redscope.CleanSlate.{Manager, norm_rel, is_vanilla_baseline_file}

pub record RemovalItem : Type 0 where
  pub rel_path : Bytes
  pub is_dir : Bool
  pub reason : Bytes

pub record FullCleanReport : Type 0 where
  pub dirs : ℕ
  pub files : ℕ
  pub items : List RemovalItem

abbrev pub no_plan : FullCleanReport
no_plan = record { dirs = 0; files = 0; items = [] }

unfoldable pub put_dir : Bytes → Bytes → FullCleanReport → FullCleanReport
put_dir sub reason r = record r {
  dirs = (r.dirs + 1) % 2 ^ 32;
  items = r.items ++ (record { rel_path = sub; is_dir = true; reason = reason } ∷ []);
}

unfoldable pub put_file : Bytes → Bytes → FullCleanReport → FullCleanReport
put_file sub reason r = record r {
  files = (r.files + 1) % 2 ^ 32;
  items = r.items ++ (record { rel_path = sub; is_dir = false; reason = reason } ∷ []);
}

-- `addDir` and `addFile`, for the paths of a list with their reasons.
unfoldable pub add_dirs : (Bytes → Bool) → List (Bytes × Bytes) → FullCleanReport → FullCleanReport
unfolding put_dir
add_dirs exists [] r = r
add_dirs exists ((sub, reason) ∷ rest) r =
    add_dirs exists rest (if exists sub then put_dir sub reason r else r)

unfoldable pub add_files : (Bytes → Bool) → List (Bytes × Bytes) → FullCleanReport → FullCleanReport
unfolding put_file
add_files exists [] r = r
add_files exists ((sub, reason) ∷ rest) r =
    add_files exists rest (if exists sub then put_file sub reason r else r)

-- The folders in `mods`.
unfoldable pub add_mods : List Bytes → FullCleanReport → FullCleanReport
unfolding put_dir
add_mods [] r = r
add_mods (rel ∷ rest) r =
    add_mods rest (put_dir rel (codes "installed REDmod mod - not in a clean install") r)

-- The regular files in `engine\config\platform\pc`.
unfoldable pub add_configs : List Bytes → FullCleanReport → FullCleanReport
unfolding put_file is_vanilla_baseline_file norm_rel
add_configs [] r = r
add_configs (rel ∷ rest) r = add_configs rest (
    if is_vanilla_baseline_file (norm_rel rel)
    then r
    else put_file rel (codes "config override - not in a clean install") r)

abbrev pub mod_folders : List (Bytes × Bytes)
mod_folders =
    (codes "archive\\pc\\mod", codes "mod archives - not in a clean install")
    ∷ (codes "red4ext", codes "RED4ext framework + plugins - not in a clean install")
    ∷ (codes "bin\\x64\\plugins", codes "ASI / CET / RED4ext plugins - not in a clean install")
    ∷ (codes "r6\\scripts", codes "RedScript mods - not in a clean install")
    ∷ (codes "r6\\tweaks", codes "TweakXL mods - not in a clean install")
    ∷ (codes "r6\\storages", codes "mod storage - not in a clean install")
    ∷ (codes "r6\\audioware", codes "Audioware mods - not in a clean install")
    ∷ []

abbrev pub vortex_folders : List (Bytes × Bytes)
vortex_folders =
    (codes "V2077", codes "Vortex footprint (load order) - not in a clean install") ∷ []

abbrev pub loader_files : List (Bytes × Bytes)
loader_files =
    (codes "vortex.deployment.json", codes "Vortex deployment manifest - not in a clean install")
    ∷ (codes "bin\\x64\\winmm.dll", codes "mod loader proxy - not in a clean install")
    ∷ (codes "bin\\x64\\version.dll", codes "mod loader proxy - not in a clean install")
    ∷ (codes "bin\\x64\\d3d11.dll", codes "mod loader proxy - not in a clean install")
    ∷ (codes "bin\\x64\\powrprof.dll", codes "mod loader proxy - not in a clean install")
    ∷ (codes "bin\\x64\\dxgi.dll", codes "ReShade proxy - not in a clean install")
    ∷ (codes "bin\\x64\\opengl32.dll", codes "ReShade/ENB proxy - not in a clean install")
    ∷ (codes "bin\\x64\\ReShade.ini", codes "ReShade config - not in a clean install")
    ∷ (codes "bin\\x64\\ReShadePreset.ini", codes "ReShade preset - not in a clean install")
    ∷ []

abbrev pub reshade_folders : List (Bytes × Bytes)
reshade_folders =
    (codes "bin\\x64\\reshade-shaders", codes "ReShade shaders - not in a clean install")
    ∷ (codes "bin\\x64\\reshade-presets", codes "ReShade presets - not in a clean install")
    ∷ (codes "bin\\x64\\enbseries", codes "ENB - not in a clean install")
    ∷ []

abbrev pub enb_files : List (Bytes × Bytes)
enb_files =
    (codes "bin\\x64\\enblocal.ini", codes "ENB config - not in a clean install")
    ∷ (codes "bin\\x64\\enbseries.ini", codes "ENB config - not in a clean install")
    ∷ (codes "bin\\x64\\enbhost.exe", codes "ENB host - not in a clean install")
    ∷ (codes "bin\\x64\\d3dcompiler_46e.dll", codes "ENB shader compiler - not in a clean install")
    ∷ []

unfoldable pub plan_full_clean : (Bytes → Bool) → List Bytes → List Bytes → FullCleanReport
unfolding add_dirs add_files add_mods add_configs
plan_full_clean exists mods configs = add_configs configs (
    add_files exists enb_files (
      add_dirs exists reshade_folders (
        add_files exists loader_files
          (add_dirs exists vortex_folders (add_mods mods (add_dirs exists mod_folders no_plan))))))
