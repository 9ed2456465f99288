-- ===== src/SymbolDb.antt =====
-- src/symbols/SymbolDb.h and src/symbols/SymbolDb.cpp: the table of the game's symbols and the search
-- for the symbol of an address. Parsing the file (simdjson), the lookup by DbgHelp and the flags of the
-- loading thread are not modelled: a table is the result of a load that succeeded.
pub mod Build
pub mod Nearest
pub mod Examples
use redscope.Base.{
  ℕ, zero, suc, ◌+◌, ◌-◌, ◌%◌, ◌^◌, Bool, true, false, ◌&&◌, Option, none, some, List, [], ◌∷◌,
  ◌++◌, map, ltb, leb, ◌==◌, if◌then◌else◌, Bytes, CStr, str_eq, length, get_elem?, take, drop,
  codes, ◌>>=◌,
}
use redscope.Base.Sort.{sort}

-- One place of `g_rva`, `g_symbolStart` and `g_symbolLen`.
pub record Entry : Type 0 where
  pub rva : ℕ
  pub start : ℕ
  pub len : ℕ

pub record Table : Type 0 where
  pub entries : List Entry
  pub blob : Bytes

pub record LookupResult : Type 0 where
  pub found : Bool
  pub symbol : Bytes
  pub offset_into_function : ℕ

abbrev pub miss : LookupResult
miss = record { found = false; symbol = []; offset_into_function = 0 }

-- The loop over "Addresses", for entries that have both a symbol and an offset: a symbol and the
-- offset that `ParseSectionOffset` reads. None is a blob of more than 4 GB.
unfoldable pub collect : Bytes → List (Bytes × ℕ) → Option (List Entry × Bytes)
collect blob [] = some ([], blob)
collect blob ((symbol, off) ∷ rest) =
    let more = collect (blob ++ symbol) rest in
    if ltb (2 ^ 32 - 1) (length blob + length symbol)
    then none
    else more
      >>= (λ r. some (record { rva = off; start = length blob; len = length symbol } ∷ r.0, r.1))

-- `for (auto& r : rvas) r += codeConst;`
abbrev pub relocated : ℕ → Entry → Entry
relocated code_const e = record e { rva = (e.rva + code_const) % 2 ^ 32 }

abbrev pub by_rva : Entry → Entry → Bool
by_rva a b = ltb a.rva b.rva

abbrev pub sentinel : Bytes → Entry
sentinel blob = record { rva = 0xFFFFFFFF; start = length blob; len = 0 }

unfoldable pub finish_table : ℕ → List Entry × Bytes → Table
finish_table code_const r = record {
  entries = sort by_rva (map (relocated code_const) (r.0)) ++ (sentinel (r.1) ∷ []);
  blob = r.1;
}

-- `LoadThread` from the parsed addresses on.
unfoldable pub load : ℕ → List (Bytes × ℕ) → Option Table
unfolding collect finish_table
load code_const addresses = do r ← collect [] addresses; some (finish_table code_const r)

-- `std::lower_bound`: the first place with no smaller address.
unfoldable pub lower_bound : List Entry → ℕ → ℕ
lower_bound [] x = 0
lower_bound (e ∷ es) x = let on = lower_bound es x in if ltb e.rva x then suc on else 0

abbrev pub text_at : Bytes → Entry → Bytes
text_at blob e = take e.len (drop e.start blob)

-- The result at a place, unless its symbol is empty.
abbrev pub at_entry : Bytes → Entry → ℕ → LookupResult
at_entry blob e x =
    if e.len == 0
    then miss
    else record { found = true; symbol = text_at blob e; offset_into_function = x - e.rva }

-- Past the test for an exact address: the place before, if there is one. None is a read out of range.
unfoldable pub before : Table → ℕ → ℕ → Option LookupResult
before t zero x = some miss
before t (suc i) x = do e ← get_elem? t.entries i; some (at_entry t.blob e x)

abbrev pub from_bound : Table → ℕ → ℕ → Option Entry → Option LookupResult
from_bound t i x none = before t i x
from_bound t i x (some e) = if e.rva == x then some (at_entry t.blob e x) else before t i x

-- `Lookup` in a table that is ready.
unfoldable pub lookup : Table → ℕ → Option LookupResult
unfolding lower_bound before
lookup t x = let i = lower_bound t.entries x in from_bound t i x (get_elem? t.entries i)

-- `EntryCount` of a table that is ready: the sentinel does not count.
unfoldable pub entry_count : Table → ℕ
entry_count t = length t.entries - 1

-- What `ResolveCodeAddress` writes: the name, the offset and whether it is approximate.
pub record Resolved : Type 0 where
  pub name : Bytes
  pub offset : ℕ
  pub approximate : Bool

-- A result of `Lookup` that lies close enough.
abbrev close : ℕ → LookupResult → Option Resolved
close name_cap r =
    if r.found && ltb r.offset_into_function 0x10000
    then some (record {
      name = take (name_cap - 1) r.symbol;
      offset = r.offset_into_function;
      approximate = leb 0x1000 r.offset_into_function;
    })
    else none

-- `by_address` is what `LookupByAddress` finds by DbgHelp, a name of less than `nameCap` bytes and an
-- offset. `none` inside is a return of false; outside it is a read out of range.
unfoldable pub resolve_code_address :
    Option (Bytes × ℕ) → Option Table → CStr → ℕ → ℕ → Option (Option Resolved)
unfolding lookup
resolve_code_address by_address ready module_name rva name_cap =
    let dbg_help : Option Resolved = elim by_address [
      | none ↦ none
      | some r ↦
          if leb 0x10000 (r.1)
          then none
          else some (record { name = r.0; offset = r.1; approximate = false })
    ] in
    let game : Bool = elim module_name [
      | none ↦ false
      | some m ↦ str_eq m (codes "Cyberpunk2077.exe")
    ] in
    if ltb name_cap 2 then some none else elim ready [
      | none ↦ some dbg_help
      | some t ↦ if game then lookup t rva >>= (λ r. some (close name_cap r)) else some dbg_help
    ]
