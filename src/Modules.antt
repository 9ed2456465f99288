-- ===== src/Modules.antt =====
-- src/snapshot/Snapshot.h: the loaded modules, sorted by address, and the search for the module
-- that holds an address. Addresses are 64 bits wide.
pub mod Search
pub mod Examples
use redscope.Base.{
  ℕ, zero, suc, ◌+◌, ◌-◌, ◌/◌, ◌%◌, ◌^◌, Option, none, some, List, ltb, leb, if◌then◌else◌, length,
  get_elem?,
}

pub data ModuleKind : Type 0 where
  unknown is_mod game system : ModuleKind

pub record ModuleInfoFixed : Type 0 where
  pub base : ℕ
  pub size : ℕ
  pub name_index : ℕ
  pub version_index : ℕ
  pub kind : ModuleKind

-- `m.base + m.size`.
abbrev pub end_of : ModuleInfoFixed → ℕ
end_of m = (m.base + m.size) % 2 ^ 64

-- The loop of `FindModuleByPC` between `lo` and `hi`, on fuel. `none` within means a fault: an
-- index out of range, or no fuel left.
unfoldable pub search : ℕ → List ModuleInfoFixed → ℕ → ℕ → ℕ → Option (Option ModuleInfoFixed)
search zero ms pc lo hi = none
search (suc f) ms pc lo hi =
    let mid = lo + (hi - lo) / 2 in
    let left = search f ms pc lo mid in
    let right = search f ms pc (mid + 1) hi in
    if ltb lo hi
    then elim (get_elem? ms mid) [
      | none ↦ none
      | some m ↦ if ltb pc m.base then left else if leb (end_of m) pc then right else some (some m)
    ]
    else some none

-- `moduleCount` is the length of the list.
unfoldable pub find_module_by_pc : List ModuleInfoFixed → ℕ → Option (Option ModuleInfoFixed)
unfolding search
find_module_by_pc ms pc = search (length ms + 1) ms pc 0 (length ms)
