-- ===== src/Modules/Examples.antt =====
-- Tests of the module search, and its theorem at a concrete table.
use redscope.Base.{
  ℕ, zero, suc, ◌+◌, ◌^◌, ◌≤◌, ◌<◌, ◌≡◌, refl, ◌⊎◌, none, some, List, [], ◌∷◌, arith, get_elem?,
}
use redscope.Modules.{ModuleInfoFixed, ModuleKind, find_module_by_pc}
use redscope.Modules.Search.{IsSorted, Holds, find_module_by_pc-Found}

abbrev pub game_module : ModuleInfoFixed
game_module = record {
  base = 0x140000000;
  size = 0x5000;
  name_index = 0;
  version_index = 0;
  kind = ModuleKind.game;
}

abbrev pub mod_module : ModuleInfoFixed
mod_module = record {
  base = 0x180000000;
  size = 0x1000;
  name_index = 1;
  version_index = 1;
  kind = ModuleKind.is_mod;
}

abbrev pub table : List ModuleInfoFixed
table = game_module ∷ mod_module ∷ []

in_mod : find_module_by_pc table 0x180000FFF ≡ some (some mod_module)
unfolding find_module_by_pc
in_mod = refl

past_mod : find_module_by_pc table 0x180001000 ≡ some none
unfolding find_module_by_pc
past_mod = refl

pub table-IsSorted : IsSorted table
table-IsSorted = record { apart = apart; within = within }
  where
    apart :
        (i j : ℕ) (a b : ModuleInfoFixed)
        → i < j
        → get_elem? table i ≡ some a
        → get_elem? table j ≡ some b
        → a.base + a.size ≤ b.base
    apart zero zero a b l e f = absurd (omega arith)
    apart zero (suc zero) a b l e f = ground arith
    apart zero (suc (suc j)) a b l e f = cc
    apart (suc zero) zero a b l e f = absurd (omega arith)
    apart (suc zero) (suc zero) a b l e f = absurd (omega arith)
    apart (suc zero) (suc (suc j)) a b l e f = cc
    apart (suc (suc i)) j a b l e f = cc

    within : (i : ℕ) (a : ModuleInfoFixed) → get_elem? table i ≡ some a → a.base + a.size < 2 ^ 64
    within zero a e = ground arith
    within (suc zero) a e = ground arith
    within (suc (suc i)) a e = cc

find_module_by_pc-Found_example :
    ((m : ModuleInfoFixed) × (i : ℕ) × (find_module_by_pc table 0x180000010 ≡ some (some m))
      × (get_elem? table i ≡ some m)
      × Holds m 0x180000010)
    ⊎ ((find_module_by_pc table 0x180000010 ≡ some none)
        × ((i : ℕ) (m : ModuleInfoFixed) → get_elem? table i ≡ some m → ¬ Holds m 0x180000010))
find_module_by_pc-Found_example = find_module_by_pc-Found table 0x180000010 table-IsSorted
