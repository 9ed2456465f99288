-- ===== src/SymbolDb/Examples.antt =====
-- Tests of the symbol table, and its theorem at a table of three symbols.
use redscope.Base.{ℕ, ◌-◌, ◌≤◌, ◌<◌, ◌≡◌, refl, ◌⊎◌, some, List, [], ◌∷◌, arith, Bytes, codes}
use redscope.Base.Sort.{sort}
use redscope.SymbolDb.{Table, load, lookup, miss}
use redscope.SymbolDb.Build.{Has, address}
use redscope.SymbolDb.Nearest.{named, lookup_nearest}

abbrev addresses : List (Bytes × ℕ)
addresses = (codes "Draw", 0x300) ∷ (codes "Tick", 0x100) ∷ ([], 0x200) ∷ []

abbrev symbols : Table
symbols = record {
  entries =
      record { rva = 0x1100; start = 4; len = 4 }
      ∷ record { rva = 0x1200; start = 8; len = 0 }
      ∷ record { rva = 0x1300; start = 0; len = 4 }
      ∷ record { rva = 0xFFFFFFFF; start = 8; len = 0 }
      ∷ [];
  blob = codes "DrawTick";
}

load-symbols : load 0x1000 addresses ≡ some symbols
unfolding load sort
load-symbols = refl

in_tick : lookup symbols 0x11FF ≡ some (named (codes "Tick") 0xFF)
unfolding lookup
in_tick = refl

lookup_nearest_example :
    ((a : Bytes × ℕ) × Has a addresses
      × (address 0x1000 a ≤ 0x1234)
      × ((b : Bytes × ℕ)
          → Has b addresses
          → address 0x1000 b ≤ 0x1234
          → address 0x1000 b ≤ address 0x1000 a)
      × (lookup symbols 0x1234 ≡ some (named (a.0) (0x1234 - address 0x1000 a))))
    ⊎ (((a : Bytes × ℕ) → Has a addresses → 0x1234 < address 0x1000 a)
        × (lookup symbols 0x1234 ≡ some miss))
lookup_nearest_example = lookup_nearest 0x1000 addresses symbols 0x1234 load-symbols (omega arith)
