-- ===== src/Sidecar/StackModules.antt =====
-- src/report/JsonSidecar.cpp, `CollectStackModules`: the modules that the words on the stack point into.
-- The words that could be read are an argument; there are at most 512, so the counters do not wrap. A
-- fault of the module search counts as no module; on sorted modules there is none.
pub mod Counts
use redscope.Base.{
  ℕ, ◌+◌, Bool, true, false, ◌||◌, Option, none, some, List, [], ◌∷◌, ◌++◌, ltb, leb, ◌==◌,
  if◌then◌else◌, length,
}
use redscope.Modules.{ModuleKind, ModuleInfoFixed, find_module_by_pc}

pub record StackModuleHit : Type 0 where
  pub name_index : ℕ
  pub kind : ModuleKind
  pub hits : ℕ

-- `count` is the length of `hits`.
pub record StackModuleScan : Type 0 where
  pub hits : List StackModuleHit
  pub overflow : Bool

abbrev pub max_stack_modules : ℕ
max_stack_modules = 48

abbrev pub max_modules : ℕ
max_modules = 256

abbrev pub no_hits : StackModuleScan
no_hits = record { hits = []; overflow = false }

abbrev pub put_hit : StackModuleHit → Option (List StackModuleHit) → Option (List StackModuleHit)
put_hit h none = none
put_hit h (some hs) = some (h ∷ hs)

-- The inner loop: one hit more for the module, or none where it has no entry.
unfoldable pub bump : ℕ → List StackModuleHit → Option (List StackModuleHit)
bump i [] = none
bump i (h ∷ hs) =
    let rest = bump i hs in
    if h.name_index == i then some (record h { hits = h.hits + 1 } ∷ hs) else put_hit h rest

abbrev pub with_hits :
    ModuleInfoFixed → StackModuleScan → Option (List StackModuleHit) → StackModuleScan
with_hits m r (some hs) = record r { hits = hs }
with_hits m r none =
    if leb max_stack_modules (length r.hits) then record r { overflow = true } else record r {
      hits = r.hits ++ (record { name_index = m.name_index; kind = m.kind; hits = 1 } ∷ []);
    }

-- The module that a word lies in, if its name has a place in the table.
unfoldable pub module_of : List ModuleInfoFixed → ℕ → Option ModuleInfoFixed
module_of ms q = elim (find_module_by_pc ms q) [
  | some (some m) ↦ if q == 0 || leb max_modules m.name_index then none else some m
  | _ ↦ none
]

abbrev pub count_module : Option ModuleInfoFixed → StackModuleScan → StackModuleScan
count_module none r = r
count_module (some m) r = with_hits m r (bump m.name_index r.hits)

unfoldable pub collect_from : List ModuleInfoFixed → List ℕ → StackModuleScan → StackModuleScan
unfolding bump module_of
collect_from ms [] r = r
collect_from ms (q ∷ qs) r = collect_from ms qs (count_module (module_of ms q) r)

unfoldable pub collect_stack_modules : List ModuleInfoFixed → List ℕ → StackModuleScan
unfolding collect_from
collect_stack_modules ms slots = collect_from ms slots no_hits

-- The insertion sort of `BuildJsonSidecar`, most hits first.
unfoldable pub insert_hit : StackModuleHit → List StackModuleHit → List StackModuleHit
insert_hit k [] = k ∷ []
insert_hit k (h ∷ hs) =
    let rest = insert_hit k hs in if ltb h.hits k.hits then k ∷ h ∷ hs else h ∷ rest

unfoldable pub sort_hits : List StackModuleHit → List StackModuleHit → List StackModuleHit
unfolding insert_hit
sort_hits sorted [] = sorted
sort_hits sorted (h ∷ hs) = sort_hits (insert_hit h sorted) hs
