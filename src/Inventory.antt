-- ===== src/Inventory.antt =====
-- src/snapshot/InstalledMods.h: what is known of the installed mods.
use redscope.Base.{ℕ, Bool, List, Bytes}

pub data ModManager : Type 0 where
  none_found mo2 vortex : ModManager

pub data ModType : Type 0 where
  red4ext cet redscript tweakxl archive asi unknown : ModType

pub record InstalledMod : Type 0 where
  pub name : Bytes
  pub version : Bytes
  pub subpath : Bytes
  pub archives : List Bytes
  pub type : ModType
  pub enabled : Bool

abbrev pub max_installed_mods : ℕ
max_installed_mods = 2048

pub record ModInventory : Type 0 where
  pub manager : ModManager
  pub manager_details : Bytes
  pub mods : List InstalledMod
  pub truncated : ℕ
