-- ===== src/Culprit.antt =====
-- src/report/CulpritHeuristic.h and src/report/CulpritHeuristic.cpp: whom the report blames.
pub mod Verdict
pub mod Accounted
pub mod Examples
use redscope.Base.{
  ℕ, ◌+◌, ◌-◌, Bool, ◌||◌, Option, none, some, List, [], ◌∷◌, ◌++◌, ltb, leb, ◌==◌, if◌then◌else◌,
  Bytes, length, codes,
}
use redscope.Format.{hex, hex8, hex16, decimal, printed}
use redscope.Text.{iequals_ascii, lower_bytes}
use redscope.Snapshot.{Snapshot, PluginInfo, find_dll, module_name_cap}
use redscope.InFlight.{InFlightObject, InFlightSet}

pub data CulpritConfidence : Type 0 where
  unknown low medium high : CulpritConfidence

pub data CulpritCategory : Type 0 where
  unknown is_mod game system memory stack_overflow redscope_itself asset : CulpritCategory

pub record CulpritVerdict : Type 0 where
  pub confidence : CulpritConfidence
  pub category : CulpritCategory
  pub text : Bytes

-- Setting the two fields and `FormatInto(v.text, sizeof(v.text), …)`.
abbrev pub verdict : CulpritCategory → CulpritConfidence → Bytes → CulpritVerdict
verdict c k t = record { confidence = k; category = c; text = printed 512 t }

-- `s.pluginMeta.byDll.find(key)` with the name in lower case.
unfoldable pub lookup_plugin_meta : Snapshot → Bytes → Option PluginInfo
lookup_plugin_meta s module_name = find_dll (lower_bytes module_name_cap module_name) s.by_dll

unfoldable pub is_host_framework_module : Bytes → Bool
is_host_framework_module name =
    iequals_ascii (some name) (some (codes "cyber_engine_tweaks.asi"))
    || iequals_ascii (some name) (some (codes "RED4ext.dll"))
    || iequals_ascii (some name) (some (codes "scc.dll"))

-- The lambda `append` on a buffer of `cap` bytes.
abbrev add_text : ℕ → Bytes → Bytes → Bytes
add_text cap out s = if leb cap (length out + length s + 1) then out else out ++ s

-- The loop over the objects, with `shown` of them printed. What it leaves is the text and `shown`.
unfoldable pub show_objects : ℕ → List InFlightObject → ℕ → Bytes → Bytes × ℕ
show_objects cap [] shown out = (out, shown)
show_objects cap (o ∷ os) shown out =
    let sep = if ltb 0 shown then add_text cap out (codes ", ") else out in
    let on = show_objects cap os (shown + 1) (add_text cap sep o.class_name) in
    if ltb shown 3 then on else (out, shown)

unfoldable pub show_in_flight : ℕ → List InFlightObject → Bytes
unfolding show_objects
show_in_flight cap items =
    let (out, shown) =
      show_objects cap items 0 (add_text cap [] (codes " | objects in registers: ")) in
    if ltb shown (length items)
    then add_text cap out
        (printed 24 (codes " (+" ++ (decimal (length items - shown) ++ codes " more)")))
    else out

-- `FormatInFlight` into a buffer of `cap` bytes; `none` is the null pointer.
unfoldable pub format_in_flight : Option InFlightSet → ℕ → Bytes
unfolding show_in_flight
format_in_flight in_flight cap = if cap == 0 then [] else elim in_flight [
  | none ↦ []
  | some s ↦ elim (s.items) [ [] ↦ [] | o ∷ os ↦ show_in_flight cap (o ∷ os) ]
]

unfoldable pub category_label : CulpritCategory → Bytes
category_label CulpritCategory.is_mod = codes "mod"
category_label CulpritCategory.game = codes "game"
category_label CulpritCategory.system = codes "system"
category_label CulpritCategory.memory = codes "memory"
category_label CulpritCategory.stack_overflow = codes "stack-overflow"
category_label CulpritCategory.redscope_itself = codes "redscope-itself"
category_label CulpritCategory.asset = codes "asset/resource"
category_label CulpritCategory.unknown = codes "unknown"

unfoldable pub confidence_label : CulpritConfidence → Bytes
confidence_label CulpritConfidence.high = codes "HIGH"
confidence_label CulpritConfidence.medium = codes "MEDIUM"
confidence_label CulpritConfidence.low = codes "LOW"
confidence_label CulpritConfidence.unknown = codes "?"
