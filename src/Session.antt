-- ===== src/Session.antt =====
-- src/snapshot/SessionHistory.h and src/snapshot/SessionHistory.cpp: the list of mods that each
-- session leaves for the next, and what changed between two. A file is the bytes in it; opening,
-- creating and flushing it are not modelled.
pub mod Rounds
pub mod Diff
pub mod File
pub mod Ordered
pub mod RoundTrip
pub mod Examples
use redscope.Base.{ℕ, zero, suc, ◌+◌, Bool, List, [], ◌∷◌, if◌then◌else◌, Bytes, str_eq, length}
use redscope.Base.Sort.{sort, str_lt}
use redscope.Stream.{is_empty}
use redscope.Base.Int.{ℤ, pos}

pub record ModSnapshot : Type 0 where
  pub name : Bytes
  pub version : Bytes

pub record ModDiff : Type 0 where
  pub added : List ModSnapshot
  pub updated : List (ModSnapshot × ModSnapshot)
  pub removed : List ModSnapshot

abbrev pub no_diff : ModDiff
no_diff = record { added = []; updated = []; removed = [] }

abbrev pub by_name : ModSnapshot → ModSnapshot → Bool
by_name a b = str_lt a.name b.name

unfoldable pub sort_by_name : List ModSnapshot → List ModSnapshot
sort_by_name v = sort by_name v

-- `push_back` comes first in these lists: each mod goes in front of what the rest of the loop adds.
abbrev pub remove : ModSnapshot → ModDiff → ModDiff
remove m d = record d { removed = m ∷ d.removed }

abbrev pub add : ModSnapshot → ModDiff → ModDiff
add m d = record d { added = m ∷ d.added }

abbrev pub update : ModSnapshot → ModSnapshot → ModDiff → ModDiff
update a b d = if str_eq a.version b.version then d else record d { updated = (a, b) ∷ d.updated }

-- The last two loops.
unfoldable pub remove_rest : List ModSnapshot → ModDiff
remove_rest [] = no_diff
remove_rest (m ∷ a) = let rest = remove_rest a in if is_empty m.name then rest else remove m rest

unfoldable pub add_rest : List ModSnapshot → ModDiff
add_rest [] = no_diff
add_rest (m ∷ b) = let rest = add_rest b in if is_empty m.name then rest else add m rest

-- One round of the first loop: what is done, and the two lists that the loop goes on with.
abbrev pub merge_round :
    ModSnapshot
    → List ModSnapshot
    → ModSnapshot
    → List ModSnapshot
    → (List ModSnapshot → List ModSnapshot → ModDiff)
    → ModDiff
merge_round x a y b on =
    if is_empty x.name
    then on a (y ∷ b)
    else if is_empty y.name
    then on (x ∷ a) b
    else if str_lt x.name y.name
    then remove x (on a (y ∷ b))
    else if str_lt y.name x.name
    then add y (on (x ∷ a) b)
    else update x y (on a b)

-- The first loop, then the others; each round of it takes at least one mod, so the sum of the two
-- lengths is fuel enough.
unfoldable pub merge : ℕ → List ModSnapshot → List ModSnapshot → ModDiff
unfolding remove_rest add_rest
merge zero a b = no_diff
merge (suc f) [] b = add_rest b
merge (suc f) (x ∷ a) [] = remove_rest (x ∷ a)
merge (suc f) (x ∷ a) (y ∷ b) = merge_round x a y b (merge f)

-- `ComputeModDiff`; `priorModCount` is the length of `prior`.
unfoldable pub compute_mod_diff : List ModSnapshot → List ModSnapshot → ModDiff
unfolding merge sort_by_name
compute_mod_diff prior current =
    merge (length prior + length current + 1) (sort_by_name prior) (sort_by_name current)
