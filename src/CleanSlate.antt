-- ===== src/CleanSlate.antt =====
-- src/cleanslate/CleanCore.cpp and src/cleanslate/CleanCore.h: which files of a game's folder belong to a
-- mod manager, and which are left over. What the walk finds, the manifest of Vortex and the manager that
-- was detected are arguments; so are the conversions of wide texts, which Windows does.
pub mod Leftover
pub mod Counted
pub mod Plan
pub mod Document
pub mod Examples
use redscope.Base.{
  ℕ, ◌+◌, ◌-◌, ◌/◌, ◌%◌, ◌^◌, Bool, true, false, not, ◌&&◌, ◌||◌, Option, none, some, List, [], ◌∷◌,
  ◌++◌, map, ltb, leb, ◌==◌, if◌then◌else◌, Bytes, str_eq, codes,
}

pub data Manager : Type 0 where
  unknown none_found mo2 vortex : Manager

pub data FileClass : Type 0 where
  managed managed_infra loose outdated_orphan : FileClass

pub record ScannedFile : Type 0 where
  pub rel_path : Bytes
  pub cls : FileClass
  pub source_mod : Bytes
  pub reason : Bytes

-- `ok` is true where there is a report.
pub record CleanReport : Type 0 where
  pub manager : Manager
  pub mo2_running : Bool
  pub vortex_will_redeploy : Bool
  pub game_dir : Bytes
  pub manager_detail : Bytes
  pub scanned : ℕ
  pub managed_count : ℕ
  pub infra_count : ℕ
  pub loose_count : ℕ
  pub orphan_count : ℕ
  pub findings : List ScannedFile

-- `NormRel`.
abbrev norm_byte : ℕ → ℕ
norm_byte c = if c == b'/' then b'\\' else if leb b'A' c && leb c b'Z' then c + 32 else c

unfoldable pub norm_rel : Bytes → Bytes
norm_rel s = map norm_byte s

unfoldable pub is_one_of : Bytes → List Bytes → Bool
is_one_of s [] = false
is_one_of s (t ∷ ts) = str_eq s t || is_one_of s ts

unfoldable pub is_framework : Bytes → Bool
unfolding is_one_of
is_framework name = is_one_of name (
    codes "red4ext.dll"
    ∷ codes "cyber_engine_tweaks.asi"
    ∷ codes "codeware.dll"
    ∷ codes "archivexl.dll"
    ∷ codes "tweakxl.dll"
    ∷ codes "redhottools.dll"
    ∷ codes "input_loader.dll"
    ∷ codes "mod_settings.dll"
    ∷ codes "redfilesystem.dll"
    ∷ codes "reddata.dll"
    ∷ codes "redsocket.dll"
    ∷ codes "version.dll"
    ∷ codes "winmm.dll"
    ∷ codes "powrprof.dll"
    ∷ codes "d3d11.dll"
    ∷ codes "scc_lib.dll"
    ∷ [])

unfoldable pub is_manager_marker : Bytes → Bool
unfolding is_one_of
is_manager_marker name =
    is_one_of name
      (codes "__folder_managed_by_vortex" ∷ codes "__delete_if_empty" ∷ codes ".stub" ∷ [])

unfoldable pub is_vanilla_baseline_file : Bytes → Bool
unfolding is_one_of
is_vanilla_baseline_file rel = is_one_of rel (
    codes "engine\\config\\platform\\pc\\rendering.ini"
    ∷ codes "engine\\config\\platform\\pc\\platformgameplay.ini"
    ∷ [])

-- A regular file of the walk: its path from the game's folder, its name in lower case, and whether its
-- final path lies in the game's folder.
pub record FoundFile : Type 0 where
  pub rel_path : Bytes
  pub name_lower : Bytes
  pub physical : Bool

-- What the classification of a file looks at. `sources` are the entries of the manifest.
pub record ScanContext : Type 0 where
  pub manager : Manager
  pub mo2_running : Bool
  pub game_dir : Bytes
  pub mo2_overlay : Option (List Bytes)
  pub sources : List (Bytes × Bytes)

abbrev pub is_vortex : Manager → Bool
is_vortex vortex = true
is_vortex _ = false

abbrev pub is_mo2 : Manager → Bool
is_mo2 mo2 = true
is_mo2 _ = false

abbrev pub has_sources : List (Bytes × Bytes) → Bool
has_sources [] = false
has_sources (s ∷ ss) = true

abbrev pub vortex_active : ScanContext → Bool
vortex_active ctx = is_vortex ctx.manager && has_sources ctx.sources

abbrev pub vortex_purged : ScanContext → Bool
vortex_purged ctx = is_vortex ctx.manager && not (vortex_active ctx)

unfoldable pub find_source : Bytes → List (Bytes × Bytes) → Option Bytes
find_source rel [] = none
find_source rel ((r, source) ∷ rest) =
    let later = find_source rel rest in if str_eq r rel then some source else later

abbrev pub as_class : Bytes → FileClass → Bytes → Bytes → ScannedFile
as_class rel cls source reason = record {
  rel_path = rel;
  cls = cls;
  source_mod = source;
  reason = reason;
}

abbrev pub by_source : Bytes → Option Bytes → ScannedFile
by_source rel (some source) = as_class rel managed source (codes "deployed by Vortex")
by_source rel none =
    as_class rel loose []
      (codes "not in the Vortex deployment manifest - leftover or manually installed")

abbrev pub by_overlay : Bytes → Bool → ScannedFile
by_overlay rel true = as_class rel managed [] (codes "overlaid from the MO2 mods folder")
by_overlay rel false =
    as_class rel loose []
      (codes "in the game folder but not overlaid by any enabled mod - leftover/manual")

abbrev pub by_place : Bytes → Bool → ScannedFile
by_place rel true =
    as_class rel loose []
      (codes "physically in the game folder; MO2 keeps it clean - leftover/manual")
by_place rel false = as_class rel managed [] (codes "redirected by the mod manager (VFS)")

abbrev pub unmanaged : Bytes → Bool → ScannedFile
unmanaged rel true = as_class rel loose [] (
    codes
      "left in the game folder after a Vortex purge - runtime-generated or modified after deploy, not managed by Vortex")
unmanaged rel false =
    as_class rel loose []
      (codes "in the game folder with no active mod manager - manual or leftover install")

-- The branches of `classify` behind the test for frameworks.
unfoldable pub judge_file : ScanContext → FoundFile → Option (List Bytes) → ScannedFile
unfolding norm_rel is_one_of find_source
judge_file ctx f (some overlay) = by_overlay f.rel_path (is_one_of (norm_rel f.rel_path) overlay)
judge_file ctx f none =
    if vortex_active ctx
    then by_source f.rel_path (find_source (norm_rel f.rel_path) ctx.sources)
    else if is_mo2 ctx.manager
    then by_place f.rel_path f.physical
    else unmanaged f.rel_path (vortex_purged ctx)

unfoldable pub file_class : ScanContext → Bool → FoundFile → ScannedFile
unfolding is_framework judge_file
file_class ctx known_loader f =
    if known_loader || is_framework f.name_lower
    then as_class f.rel_path managed_infra []
        (codes "framework / loader (expected for a modded install)")
    else judge_file ctx f ctx.mo2_overlay

-- Files that are passed over without being counted.
unfoldable pub is_skipped : FoundFile → Bool
unfolding is_manager_marker is_vanilla_baseline_file norm_rel
is_skipped f = is_manager_marker f.name_lower || is_vanilla_baseline_file (norm_rel f.rel_path)

-- The counters have 32 bits.
abbrev pub up : ℕ → ℕ
up n = (n + 1) % 2 ^ 32

unfoldable pub count_file : ScannedFile → FileClass → CleanReport → CleanReport
count_file sf managed r = record r { scanned = up r.scanned; managed_count = up r.managed_count }
count_file sf managed_infra r = record r { scanned = up r.scanned; infra_count = up r.infra_count }
count_file sf loose r = record r {
  scanned = up r.scanned;
  loose_count = up r.loose_count;
  findings = r.findings ++ (sf ∷ []);
}
count_file sf outdated_orphan r = record r { scanned = up r.scanned }

unfoldable pub classify : ScanContext → Bool → FoundFile → CleanReport → CleanReport
unfolding file_class count_file is_skipped
classify ctx known_loader f r =
    let sf = file_class ctx known_loader f in if is_skipped f then r else count_file sf sf.cls r

abbrev pub max_scanned : ℕ
max_scanned = 200000

-- The walks over the folders of mods, one after the other.
unfoldable pub scan_files : ScanContext → List FoundFile → CleanReport → CleanReport
unfolding classify
scan_files ctx [] r = r
scan_files ctx (f ∷ fs) r =
    if ltb r.scanned max_scanned then scan_files ctx fs (classify ctx false f r) else r

unfoldable pub scan_loaders : ScanContext → List FoundFile → CleanReport → CleanReport
unfolding classify
scan_loaders ctx [] r = r
scan_loaders ctx (f ∷ fs) r = scan_loaders ctx fs (classify ctx true f r)

unfoldable pub manager_detail_of : ScanContext → Bytes
manager_detail_of ctx =
    if vortex_active ctx
    then codes "Vortex (active deployment manifest present; mods hardlinked into the game folder)"
    else if vortex_purged ctx
    then codes
        "Vortex (no active deployment - purged or pre-deploy; only un-managed leftovers remain)"
    else if is_mo2 ctx.manager
    then codes "MO2 (USVFS active; game folder kept clean, mods overlaid virtually)"
    else codes "None detected (no Vortex footprint, no MO2 VFS)"

unfoldable pub new_report : ScanContext → CleanReport
unfolding manager_detail_of
new_report ctx = record {
  manager = ctx.manager;
  mo2_running = ctx.mo2_running;
  vortex_will_redeploy = is_vortex ctx.manager;
  game_dir = ctx.game_dir;
  manager_detail = manager_detail_of ctx;
  scanned = 0;
  managed_count = 0;
  infra_count = 0;
  loose_count = 0;
  orphan_count = 0;
  findings = [];
}

-- `Scan`, with the files that the walks find and those of the loaders that exist.
unfoldable pub scan : ScanContext → List FoundFile → List FoundFile → CleanReport
unfolding scan_files scan_loaders new_report
scan ctx files loaders = scan_loaders ctx loaders (scan_files ctx files (new_report ctx))

unfoldable pub detect_manager : Bool → Bool → Bool → Manager
detect_manager usvfs has_manifest has_v2077 =
    if usvfs then mo2 else if has_manifest then vortex else if has_v2077 then vortex else none_found
