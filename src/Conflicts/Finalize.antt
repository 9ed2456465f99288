-- ===== src/Conflicts/Finalize.antt =====
-- src/snapshot/CuratedConflicts.cpp, `FinalizeConflictDB`: mods with a common tag become a group, and mods
-- that the rules do not know are taken out.
use redscope.Base.{
  ◌≤◌, ◌≡◌, inl, inr, Bool, true, ◌||◌, List, [], ◌∷◌, ◌++◌, arith, ltb, leb, if◌then◌else◌, tests,
  Bool-cases, Bytes, str_eq, length, All,
}
use redscope.Base.Sort.{sort, str_lt}
use redscope.Conflicts.{ConflictModEntry, ConflictDb, contains, keep_if, phantom_liberty}

unfoldable pub mod_names : List (Bytes × ConflictModEntry) → List Bytes
mod_names [] = []
mod_names ((name, entry) ∷ mods) = name ∷ mod_names mods

-- A mod stands in a group once for each time that it has the tag.
unfoldable pub times : Bytes → Bytes → List Bytes → List Bytes
times name tag [] = []
times name tag (t ∷ ts) = let rest = times name tag ts in if str_eq t tag then name ∷ rest else rest

-- `tagGroups[tag]`.
unfoldable pub members_of : Bytes → List (Bytes × ConflictModEntry) → List Bytes
unfolding times
members_of tag [] = []
members_of tag ((name, entry) ∷ mods) = times name tag entry.tags ++ members_of tag mods

unfoldable pub new_tags : List Bytes → List Bytes → List Bytes
unfolding contains
new_tags seen [] = seen
new_tags seen (t ∷ ts) = if contains t seen then new_tags seen ts else new_tags (t ∷ seen) ts

-- The keys of `tagGroups`.
unfoldable pub tags_of : List Bytes → List (Bytes × ConflictModEntry) → List Bytes
unfolding new_tags
tags_of seen [] = seen
tags_of seen ((name, entry) ∷ mods) = tags_of (new_tags seen entry.tags) mods

unfoldable pub is_shared : List (Bytes × ConflictModEntry) → Bytes → Bool
unfolding members_of
is_shared mods tag = leb 2 (length (members_of tag mods))

unfoldable pub tag_names : List (Bytes × ConflictModEntry) → List Bytes
unfolding tags_of keep_if is_shared
tag_names mods = sort str_lt (keep_if (is_shared mods) (tags_of [] mods))

unfoldable pub tag_groups : List (Bytes × ConflictModEntry) → List Bytes → List (List Bytes)
unfolding members_of
tag_groups mods [] = []
tag_groups mods (tag ∷ tags) = sort str_lt (members_of tag mods) ∷ tag_groups mods tags

-- The two `remove_if` over the groups.
unfoldable pub known_groups : List Bytes → List (List Bytes) → List (List Bytes)
unfolding contains keep_if
known_groups names [] = []
known_groups names (grp ∷ grps) =
    let rest = known_groups names grps in
    let left = keep_if (λ m. contains m names) grp in
    if ltb (length left) 2 then rest else left ∷ rest

abbrev pub is_requirable : List Bytes → Bytes → Bool
is_requirable names r = str_eq r phantom_liberty || contains r names

abbrev pub put_reqs : Bytes → List Bytes → List (Bytes × List Bytes) → List (Bytes × List Bytes)
put_reqs m [] rest = rest
put_reqs m (r ∷ rs) rest = (m, r ∷ rs) ∷ rest

unfoldable pub known_dependencies :
    List Bytes → List (Bytes × List Bytes) → List (Bytes × List Bytes)
unfolding contains keep_if
known_dependencies names [] = []
known_dependencies names ((m, reqs) ∷ deps) =
    let rest = known_dependencies names deps in
    if contains m names then put_reqs m (keep_if (is_requirable names) reqs) rest else rest

unfoldable pub finalize_conflict_db : ConflictDb → ConflictDb
unfolding mod_names tag_names tag_groups known_groups known_dependencies
finalize_conflict_db db =
    let names = mod_names db.mods in
    record db {
      conflicts = known_groups names (db.conflicts ++ tag_groups db.mods (tag_names db.mods));
      dependencies = known_dependencies names db.dependencies;
    }

-- All members of a list pass a test.
abbrev pub AllOf : (Bytes → Bool) → List Bytes → Type 0
AllOf p xs = All (λ x. p x ≡ true) xs

keep_if-AllOf : (p : Bytes → Bool) (xs : List Bytes) → AllOf p (keep_if p xs)
unfolding keep_if
keep_if-AllOf p [] = tt
keep_if-AllOf p (x ∷ xs) = elim (Bool-cases (p x)) [
  | inl e ↦ rw e (e, keep_if-AllOf p xs)
  | inr e ↦ rw e (keep_if-AllOf p xs)
]

unfoldable pub IsGroup : List Bytes → List Bytes → Type 0
unfolding contains
IsGroup names grp = (2 ≤ length grp) × AllOf (λ m. contains m names) grp

known_groups-All :
    (names : List Bytes) (grps : List (List Bytes)) → All (IsGroup names) (known_groups names grps)
unfolding known_groups IsGroup
known_groups-All names [] = tt
known_groups-All names (grp ∷ grps) =
    let left = keep_if (λ m. contains m names) grp in
    elim (Bool-cases (ltb (length left) 2)) [
      | inl e ↦ rw e (known_groups-All names grps)
      | inr e ↦ rw e ((omega (tests, e), keep_if-AllOf _ grp), known_groups-All names grps)
    ]

unfoldable pub IsDependency : List Bytes → Bytes × List Bytes → Type 0
unfolding contains
IsDependency names d =
    (contains d.0 names ≡ true) × (1 ≤ length d.1) × AllOf (is_requirable names) d.1

put_reqs-All :
    (names : List Bytes) (m : Bytes) (reqs : List Bytes) (rest : List (Bytes × List Bytes))
    → contains m names ≡ true
    → AllOf (is_requirable names) reqs
    → All (IsDependency names) rest
    → All (IsDependency names) (put_reqs m reqs rest)
unfolding IsDependency
put_reqs-All names m [] rest h k r = r
put_reqs-All names m (q ∷ reqs) rest h k r = ((h, omega arith, k), r)

known_dependencies-All :
    (names : List Bytes) (deps : List (Bytes × List Bytes))
    → All (IsDependency names) (known_dependencies names deps)
unfolding known_dependencies
known_dependencies-All names [] = tt
known_dependencies-All names ((m, reqs) ∷ deps) = elim (Bool-cases (contains m names)) [
  | inl e ↦ rw e (
      put_reqs-All names m (keep_if (is_requirable names) reqs) (known_dependencies names deps) e
        (keep_if-AllOf (is_requirable names) reqs) (known_dependencies-All names deps))
  | inr e ↦ rw e (known_dependencies-All names deps)
]

-- The rules that are left name only mods that the rules know: each group has two of them at least, and each
-- mod with dependencies has one at least, which is a mod or the expansion.
finalize_conflict_db-All :
    (db : ConflictDb)
    → All (IsGroup (mod_names db.mods)) (finalize_conflict_db db).conflicts
      × All (IsDependency (mod_names db.mods)) (finalize_conflict_db db).dependencies
unfolding finalize_conflict_db
finalize_conflict_db-All db = (
  known_groups-All (mod_names db.mods) (db.conflicts ++ tag_groups db.mods (tag_names db.mods)),
  known_dependencies-All (mod_names db.mods) db.dependencies,
)
