-- ===== src/Conflicts.antt =====
-- src/snapshot/CuratedConflicts.h and src/snapshot/CuratedConflicts.cpp: known conflicts between mods,
-- judged for the mods that are installed. An `unordered_map` is the list of its pairs in the order of its
-- iteration; simdjson and the files that the rules come from are not modelled.
pub mod Finalize
pub mod Bounded
pub mod Pairs
pub mod Groups
pub mod Examples
use redscope.Base.{
  ℕ, ◌+◌, ◌%◌, ◌^◌, Bool, true, false, not, ◌&&◌, ◌||◌, List, [], ◌∷◌, ◌++◌, map, ltb, leb,
  if◌then◌else◌, Bytes, str_eq, length, codes,
}
use redscope.Base.Sort.{sort, str_lt}
use redscope.Text.{to_lower_ascii}

pub record ConflictModEntry : Type 0 where
  pub archives : List Bytes
  pub tags : List Bytes

pub record ConflictDb : Type 0 where
  pub mods : List (Bytes × ConflictModEntry)
  pub dependencies : List (Bytes × List Bytes)
  pub conflicts : List (List Bytes)
  pub exceptions : List (List Bytes)

-- An `ArchiveConflictGroup` is its list of mods.
pub record MissingDep : Type 0 where
  pub mod_name : Bytes
  pub required : List Bytes

pub record ArchiveConflicts : Type 0 where
  pub active : List (List Bytes)
  pub missing_deps : List MissingDep
  pub db_mod_count : ℕ
  pub truncated : ℕ

abbrev pub max_conflict_groups : ℕ
max_conflict_groups = 64

abbrev pub max_missing_deps : ℕ
max_missing_deps = 64

abbrev pub phantom_liberty : Bytes
phantom_liberty = codes "Phantom Liberty"

-- `Lower`.
unfoldable pub lower : Bytes → Bytes
unfolding to_lower_ascii
lower s = map to_lower_ascii s

-- `count` of a set.
unfoldable pub contains : Bytes → List Bytes → Bool
contains a [] = false
contains a (b ∷ bs) = str_eq a b || contains a bs

unfoldable pub any_of : (Bytes → Bool) → List Bytes → Bool
any_of p [] = false
any_of p (a ∷ as_) = p a || any_of p as_

unfoldable pub keep_if : (Bytes → Bool) → List Bytes → List Bytes
keep_if p [] = []
keep_if p (a ∷ as_) = let rest = keep_if p as_ in if p a then a ∷ rest else rest

-- `installed[name]` for the mods of the rules.
unfoldable pub installed_of : List Bytes → List (Bytes × ConflictModEntry) → List (Bytes × Bool)
unfolding any_of contains
installed_of archive_set [] = []
installed_of archive_set ((name, entry) ∷ mods) =
    (name, any_of (λ a. contains a archive_set) entry.archives) ∷ installed_of archive_set mods

-- `find` and what is found; a mod that the rules do not know is not installed.
unfoldable pub is_installed : List (Bytes × Bool) → Bytes → Bool
is_installed [] m = false
is_installed ((name, present) ∷ rest) m =
    let later = is_installed rest m in if str_eq name m then present else later

unfoldable pub pair_key : Bytes → Bytes → Bytes
pair_key a b = if str_lt a b then a ++ (1 ∷ b) else b ++ (1 ∷ a)

-- The keys of all pairs of a group.
unfoldable pub pair_keys : List Bytes → List Bytes
unfolding pair_key
pair_keys [] = []
pair_keys (a ∷ grp) = map (pair_key a) grp ++ pair_keys grp

unfoldable pub excepted_pairs : List (List Bytes) → List Bytes
unfolding pair_keys
excepted_pairs [] = []
excepted_pairs (grp ∷ grps) = pair_keys grp ++ excepted_pairs grps

unfoldable pub is_excepted : List Bytes → Bytes → Bytes → Bool
unfolding contains pair_key
is_excepted pairs a b = contains (pair_key a b) pairs

abbrev pub conflicts_with : List Bytes → Bytes → Bytes → Bool
conflicts_with pairs a b = not (str_eq a b) && not (is_excepted pairs a b)

-- The members that another member conflicts with.
unfoldable pub survivors : List Bytes → List Bytes → List Bytes
unfolding keep_if any_of is_excepted
survivors pairs members = keep_if (λ a. any_of (conflicts_with pairs a) members) members

-- One group of the rules.
unfoldable pub judge_group :
    List (Bytes × Bool) → List Bytes → List Bytes → ArchiveConflicts → ArchiveConflicts
unfolding keep_if survivors is_installed
judge_group installed pairs grp r =
    let members = keep_if (is_installed installed) grp in
    let left = survivors pairs members in
    if ltb (length members) 2
    then r
    else if leb 2 (length left)
    then (if leb max_conflict_groups (length r.active)
        then record r { truncated = (r.truncated + 1) % 2 ^ 32 }
        else record r { active = r.active ++ (sort str_lt left ∷ []) })
    else r

unfoldable pub judge_groups :
    List (Bytes × Bool) → List Bytes → List (List Bytes) → ArchiveConflicts → ArchiveConflicts
unfolding judge_group
judge_groups installed pairs [] r = r
judge_groups installed pairs (grp ∷ grps) r =
    judge_groups installed pairs grps (judge_group installed pairs grp r)

-- Whether a requirement is counted as not met.
abbrev pub is_unmet : List (Bytes × Bool) → Bool → Bool → Bytes → Bool
is_unmet installed is_ep1 engine_read_valid r =
    if str_eq r phantom_liberty
    then engine_read_valid && not is_ep1
    else not (is_installed installed r)

unfoldable pub judge_dependency :
    List (Bytes × Bool) → Bool → Bool → Bytes → List Bytes → ArchiveConflicts → ArchiveConflicts
unfolding keep_if is_installed
judge_dependency installed is_ep1 engine_read_valid mod_name reqs r =
    let unmet = keep_if (is_unmet installed is_ep1 engine_read_valid) reqs in
    if not (is_installed installed mod_name)
    then r
    else if ltb 0 (length unmet)
    then (if leb max_missing_deps (length r.missing_deps)
        then record r { truncated = (r.truncated + 1) % 2 ^ 32 }
        else record r {
          missing_deps =
              r.missing_deps ++ (record { mod_name = mod_name; required = sort str_lt unmet } ∷ []);
        })
    else r

unfoldable pub judge_dependencies :
    List (Bytes × Bool)
    → Bool
    → Bool
    → List (Bytes × List Bytes)
    → ArchiveConflicts
    → ArchiveConflicts
unfolding judge_dependency
judge_dependencies installed is_ep1 engine_read_valid [] r = r
judge_dependencies installed is_ep1 engine_read_valid ((m, reqs) ∷ deps) r =
    judge_dependencies installed is_ep1 engine_read_valid deps
      (judge_dependency installed is_ep1 engine_read_valid m reqs r)

-- `<` of vectors of texts.
unfoldable pub list_lt : List Bytes → List Bytes → Bool
list_lt xs [] = false
list_lt [] (y ∷ ys) = true
list_lt (x ∷ xs) (y ∷ ys) = str_lt x y || (str_eq x y && list_lt xs ys)

abbrev pub by_mod : MissingDep → MissingDep → Bool
by_mod a b = str_lt a.mod_name b.mod_name

unfoldable pub evaluate_conflicts : ConflictDb → List Bytes → Bool → Bool → ArchiveConflicts
unfolding judge_groups judge_dependencies installed_of excepted_pairs lower list_lt
evaluate_conflicts db installed_archives is_ep1 engine_read_valid =
    let installed = installed_of (map lower installed_archives) db.mods in
    let start : ArchiveConflicts = record {
      active = [];
      missing_deps = [];
      db_mod_count = length db.mods % 2 ^ 32;
      truncated = 0;
    } in
    let judged =
      judge_dependencies installed is_ep1 engine_read_valid db.dependencies
        (judge_groups installed (excepted_pairs db.exceptions) db.conflicts start) in
    record judged {
      active = sort list_lt judged.active;
      missing_deps = sort by_mod judged.missing_deps;
    }
