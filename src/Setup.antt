-- ===== src/Setup.antt =====
-- src/snapshot/SetupIntegrity.h and src/snapshot/SetupIntegrity.cpp: what is wrong with an installation.
pub mod Examples
use redscope.Base.{
  ℕ, ◌+◌, ◌-◌, ◌%◌, ◌^◌, Bool, true, false, not, ◌&&◌, List, [], ◌∷◌, ◌++◌, ltb, leb, if◌then◌else◌,
  Bytes, length, take, codes,
}
use redscope.Format.{decimal}
use redscope.Inventory.{
  ModManager, mo2, none_found, vortex, ModType, cet, tweakxl, InstalledMod, ModInventory,
}

pub record SetupIssue : Type 0 where
  pub kind : Bytes
  pub detail : Bytes

pub record SetupIntegrity : Type 0 where
  pub issues : List SetupIssue
  pub truncated : ℕ

pub record FrameworkPresence : Type 0 where
  pub cet : Bool
  pub tweak_xl : Bool

pub record LooseFileReport : Type 0 where
  pub manager : ModManager
  pub loose_count : ℕ
  pub offenders : List Bytes
  pub read_ok : Bool
  pub mo2_unreliable : Bool

abbrev pub max_setup_issues : ℕ
max_setup_issues = 32

abbrev pub is_cet : ModType → Bool
is_cet ModType.cet = true
is_cet _ = false

abbrev pub is_tweakxl : ModType → Bool
is_tweakxl ModType.tweakxl = true
is_tweakxl _ = false

-- The two counters of the loop.
unfoldable pub count_mods : (ModType → Bool) → List InstalledMod → ℕ
count_mods of_type [] = 0
count_mods of_type (m ∷ ms) =
    let rest = count_mods of_type ms in if m.enabled && of_type m.type then rest + 1 else rest

unfoldable pub add_issue : Bytes → Bytes → SetupIntegrity → SetupIntegrity
add_issue kind detail r =
    if leb max_setup_issues (length r.issues)
    then record r { truncated = (r.truncated + 1) % 2 ^ 32 }
    else record r { issues = r.issues ++ (record { kind = kind; detail = detail } ∷ []) }

abbrev pub add_if : Bool → Bytes → Bytes → SetupIntegrity → SetupIntegrity
add_if true kind detail r = add_issue kind detail r
add_if false kind detail r = r

-- The first five offenders, behind a colon.
unfoldable pub sample_from : Bytes → List Bytes → Bytes
sample_from before [] = []
sample_from before (o ∷ os) = before ++ (o ++ sample_from (codes ", ") os)

unfoldable pub sample_of : LooseFileReport → Bytes
unfolding sample_from
sample_of loose =
    sample_from (codes ": ") (take 5 loose.offenders)
    ++ (if ltb (length loose.offenders) loose.loose_count then codes ", ..." else [])

abbrev pub loose_issue : ModManager → Bytes → LooseFileReport → SetupIntegrity → SetupIntegrity
loose_issue mo2 sample loose r =
    add_issue (codes "loose-files-mo2")
      (decimal loose.loose_count
        ++ (codes
              " mod file(s) are in the game folder but not overlaid by any enabled mod in your MO2 modlist - leftover or manually-installed files"
            ++ (sample ++ codes ".")))
      r
loose_issue none_found sample loose r =
    add_issue (codes "loose-files-native")
      (decimal loose.loose_count
        ++ (codes " manually-installed mod file(s) in the game folder (no mod manager detected)"
            ++ (sample ++ codes ".")))
      r
loose_issue vortex sample loose r = r

abbrev pub is_mo2 : ModManager → Bool
is_mo2 mo2 = true
is_mo2 _ = false

unfoldable pub loose_issues : LooseFileReport → SetupIntegrity → SetupIntegrity
unfolding add_issue sample_of
loose_issues loose r =
    if loose.read_ok && is_mo2 loose.manager && loose.mo2_unreliable
    then add_issue (codes "loose-files-unverified")
        (codes "Couldn't verify game-folder mod files on this MO2/USVFS setup.") r
    else if loose.read_ok && ltb 0 loose.loose_count
    then loose_issue loose.manager (sample_of loose) loose r
    else r

unfoldable pub compute_setup_integrity :
    ModInventory → FrameworkPresence → ℕ → LooseFileReport → SetupIntegrity
unfolding count_mods add_issue loose_issues
compute_setup_integrity inventory frameworks plugin_load_failures loose =
    let cet_mods = count_mods is_cet inventory.mods in
    let tweakxl_mods = count_mods is_tweakxl inventory.mods in
    let r0 : SetupIntegrity = record { issues = []; truncated = 0 } in
    let r1 =
      add_if (ltb 0 cet_mods && not frameworks.cet) (codes "missing-framework")
        (decimal cet_mods ++ codes " CET mod(s) installed but Cyber Engine Tweaks is not loaded.")
        r0 in
    let r2 =
      add_if (ltb 0 tweakxl_mods && not frameworks.tweak_xl) (codes "missing-framework")
        (decimal tweakxl_mods ++ codes " TweakXL mod(s) installed but TweakXL is not loaded.") r1 in
    let r3 =
      add_if (ltb 0 plugin_load_failures) (codes "plugin-load-failure")
        (decimal plugin_load_failures
          ++ codes " RED4ext plugin(s) failed to load; see the red4ext log.")
        r2 in
    loose_issues loose r3
