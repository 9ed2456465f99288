-- ===== src/Fingerprint.antt =====
-- src/report/Fingerprint.h and src/report/Fingerprint.cpp: the ids by which crashes are grouped.
pub mod Compute
pub mod Streams
pub mod ModSet
pub mod Examples
use redscope.Base.{
  ℕ, ◌+◌, ◌%◌, ◌^◌, Bool, true, false, not, ◌&&◌, ◌||◌, Option, none, some, List, [], ◌∷◌, ◌==◌,
  if◌then◌else◌, Bytes, CStr, str_eq, take, codes,
}
use redscope.Fnv.{fnv_offset, fnv_bytes, fnv_str, fnv_u64, fnv_sep, mix64, encode_id}
use redscope.Inventory.{InstalledMod, max_installed_mods}

pub record CrashFingerprint : Type 0 where
  pub primary : ℕ
  pub loose : ℕ
  pub mod_set : ℕ
  pub primary_id : Bytes
  pub loose_id : Bytes
  pub has_module : Bool
  pub fault_site_unreliable : Bool

abbrev pub max_fingerprint_tail : ℕ
max_fingerprint_tail = 5

-- `s && s[0]`.
abbrev pub present : CStr → Bool
present none = false
present (some []) = false
present (some (c ∷ s)) = true

abbrev pub or_one : ℕ → ℕ
or_one h = if h == 0 then 1 else h

abbrev pub game_exe : Bytes
game_exe = codes "cyberpunk2077.exe"

-- The part of `base` that names the module and the place in it.
unfoldable pub add_module : ℕ → CStr → ℕ → CStr → ℕ
add_module h none rva symbol = h
add_module h (some m) rva symbol =
    let named = fnv_sep (fnv_str h (some m)) in
    if present symbol then fnv_str named symbol else fnv_u64 named rva

-- `base`.
unfoldable pub site_hash : ℕ → CStr → CStr → ℕ → CStr → ℕ
unfolding add_module
site_hash code build module_name rva symbol =
    add_module (fnv_sep (fnv_str (fnv_sep (fnv_u64 fnv_offset code)) build)) module_name rva symbol

-- `gameUnsymbolicated`.
unfoldable pub game_unsymbolicated : CStr → CStr → Bool
game_unsymbolicated none symbol = false
game_unsymbolicated (some m) symbol = str_eq m game_exe && not (present symbol)

-- The hash of the loose id: in the game's own code, with no symbol, the first name of the tail
-- joins it.
unfoldable pub loose_hash : ℕ → Bool → List CStr → ℕ
loose_hash base true (some t ∷ tail) = fnv_str (fnv_sep base) (some t)
loose_hash base true tail = base
loose_hash base false tail = base

-- The loop over the tail.
unfoldable pub add_tail : ℕ → List CStr → ℕ
add_tail h [] = h
add_tail h (t ∷ tail) = add_tail (fnv_str (fnv_sep h) t) tail

abbrev pub id_of : ℕ → Bytes
id_of h = elim (encode_id h 12) [ none ↦ [] | some s ↦ s ]

-- `tailNames` with `tailCount`; a null `tailNames` is the empty list.
unfoldable pub compute_fingerprint_core :
    ℕ → CStr → CStr → ℕ → CStr → List CStr → ℕ → Bool → CrashFingerprint
unfolding site_hash game_unsymbolicated loose_hash add_tail
compute_fingerprint_core code build module_name rva symbol tail mods unreliable =
    let base = site_hash code build module_name rva symbol in
    let loose = or_one (loose_hash base (game_unsymbolicated module_name symbol) tail) in
    let primary = or_one (add_tail base (take max_fingerprint_tail tail)) in
    record {
      primary = primary;
      loose = loose;
      mod_set = mods;
      primary_id = id_of primary;
      loose_id = id_of loose;
      has_module = elim module_name [ none ↦ false | some m ↦ true ];
      fault_site_unreliable = unreliable;
    }

abbrev is_empty : Bytes → Bool
is_empty [] = true
is_empty (c ∷ s) = false

unfoldable pub mod_hash : InstalledMod → ℕ
mod_hash m = mix64 (fnv_bytes (fnv_sep (fnv_bytes fnv_offset m.name)) m.version)

-- The loop of `ComputeModSetHash`.
unfoldable pub mod_set_onto : ℕ → List InstalledMod → ℕ
unfolding mod_hash
mod_set_onto acc [] = acc
mod_set_onto acc (m ∷ ms) =
    mod_set_onto (if not m.enabled || is_empty m.name then acc else (acc + mod_hash m) % 2 ^ 64) ms

-- `none` is a null snapshot.
unfoldable pub compute_mod_set_hash : Option (List InstalledMod) → ℕ
unfolding mod_set_onto
compute_mod_set_hash none = 0
compute_mod_set_hash (some mods) = mod_set_onto 0 (take max_installed_mods mods)
