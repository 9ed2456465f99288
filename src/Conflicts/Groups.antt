-- ===== src/Conflicts/Groups.antt =====
-- src/snapshot/CuratedConflicts.cpp, `EvaluateConflicts`: what the two lists of the result hold.
use redscope.Base.{
  ℕ, ◌+◌, ◌-◌, ◌%◌, ◌^◌, ◌≡◌, refl, ap, ◌∙◌, inl, inr, Bool, true, false, not, List, [], ◌∷◌, ◌++◌,
  map, arith, ltb, leb, if◌then◌else◌, tests, Bool-cases, Bytes, length, take,
}
use redscope.Base.Sort.{sort, str_lt}
use redscope.Conflicts.{
  max_conflict_groups, max_missing_deps, ConflictDb, MissingDep, ArchiveConflicts, keep_if,
  is_installed, installed_of, excepted_pairs, lower, survivors, judge_group, judge_groups, is_unmet,
  judge_dependency, judge_dependencies, list_lt, by_mod, evaluate_conflicts,
}
use redscope.Conflicts.Bounded.{push_bounded, push_all, push_all_lem}
use redscope.Conflicts.Pairs.{NoneOrTwo, survivors_one, survivors-NoneOrTwo}

abbrev put_survivors : List Bytes → List (List Bytes) → List (List Bytes)
put_survivors [] rest = rest
put_survivors (a ∷ l) rest = sort str_lt (a ∷ l) ∷ rest

-- Each group of the rules without the mods that are not installed and those that no other mod of the
-- group conflicts with, if a mod is left.
unfoldable pub live_groups :
    List (Bytes × Bool) → List Bytes → List (List Bytes) → List (List Bytes)
live_groups installed pairs [] = []
live_groups installed pairs (grp ∷ grps) =
    put_survivors (survivors pairs (keep_if (is_installed installed) grp))
      (live_groups installed pairs grps)

abbrev put_unmet : Bytes → Bool → List Bytes → List MissingDep → List MissingDep
put_unmet m true (a ∷ l) rest = record { mod_name = m; required = sort str_lt (a ∷ l) } ∷ rest
put_unmet m _ _ rest = rest

-- Each installed mod with the requirements that are not met, if it has one.
unfoldable pub open_deps :
    List (Bytes × Bool) → Bool → Bool → List (Bytes × List Bytes) → List MissingDep
open_deps installed is_ep1 valid [] = []
open_deps installed is_ep1 valid ((m, reqs) ∷ deps) =
    put_unmet m (is_installed installed m) (keep_if (is_unmet installed is_ep1 valid) reqs)
      (open_deps installed is_ep1 valid deps)

-- The result with other groups, and with other missing mods.
abbrev with_groups : ArchiveConflicts → List (List Bytes) × ℕ → ArchiveConflicts
with_groups r st = record r { active = st.0; truncated = st.1 }

abbrev with_deps : ArchiveConflicts → List MissingDep × ℕ → ArchiveConflicts
with_deps r st = record r { missing_deps = st.0; truncated = st.1 }

abbrev put_left : List Bytes → ArchiveConflicts → ArchiveConflicts
put_left [] r = r
put_left (a ∷ l) r =
    with_groups r (push_bounded max_conflict_groups (sort str_lt (a ∷ l)) (r.active, r.truncated))

-- The guards of the loop keep every group that has a survivor.
guards :
    (few : Bool) (left : List Bytes) (r : ArchiveConflicts)
    → (few ≡ true → left ≡ [])
    → NoneOrTwo left
    → (if few
        then r
        else if leb 2 (length left)
        then (if leb max_conflict_groups (length r.active)
            then record r { truncated = (r.truncated + 1) % 2 ^ 32 }
            else record r { active = r.active ++ (sort str_lt left ∷ []) })
        else r)
      ≡ put_left left r
guards true [] r h two = refl
guards false [] r h two = refl
guards true (a ∷ l) r h two = absurd (none_left (h refl))
  where
    none_left : a ∷ l ≡ [] → ⊥
    none_left e = cc
guards false (a ∷ l) r h two =
    let many : leb 2 (length (a ∷ l)) ≡ true = at_least_two two in
    elim (Bool-cases (leb max_conflict_groups (length r.active))) [
      | inl e ↦ rw (many, e) refl
      | inr e ↦ rw (many, e) refl
    ]
  where
    at_least_two : NoneOrTwo (a ∷ l) → leb 2 (length (a ∷ l)) ≡ true
    at_least_two (inl e) = absurd (none_left e)
      where
        none_left : a ∷ l ≡ [] → ⊥
        none_left e = cc
    at_least_two (inr h) = omega (tests, h)

judge_group_left :
    (installed : List (Bytes × Bool)) (pairs grp : List Bytes) (r : ArchiveConflicts)
    → judge_group installed pairs grp r
      ≡ put_left (survivors pairs (keep_if (is_installed installed) grp)) r
unfolding judge_group
judge_group_left installed pairs grp r =
    let members = keep_if (is_installed installed) grp in
    guards (ltb (length members) 2) (survivors pairs members) r
      (λ few. survivors_one pairs members (omega (tests, few))) (survivors-NoneOrTwo pairs members)

left_push :
    (left : List Bytes) (rest : List (List Bytes)) (r : ArchiveConflicts)
    → with_groups
        (put_left left r)
        (push_all max_conflict_groups rest ((put_left left r).active, (put_left left r).truncated))
      ≡ with_groups r
          (push_all max_conflict_groups (put_survivors left rest) (r.active, r.truncated))
unfolding push_all
left_push [] rest r = refl
left_push (a ∷ l) rest r = refl

judge_groups_push :
    (installed : List (Bytes × Bool)) (pairs : List Bytes) (grps : List (List Bytes))
    (r : ArchiveConflicts)
    → judge_groups installed pairs grps r
      ≡ with_groups r
          (push_all max_conflict_groups (live_groups installed pairs grps) (r.active, r.truncated))
unfolding judge_groups push_all live_groups
judge_groups_push installed pairs [] r = refl
judge_groups_push installed pairs (grp ∷ grps) r =
    let left = survivors pairs (keep_if (is_installed installed) grp) in
    ap (judge_groups installed pairs grps) (judge_group_left installed pairs grp r)
    ∙ judge_groups_push installed pairs grps (put_left left r)
    ∙ left_push left (live_groups installed pairs grps) r

abbrev put_open : Bytes → Bool → List Bytes → ArchiveConflicts → ArchiveConflicts
put_open m true (a ∷ l) r = with_deps r (
    push_bounded max_missing_deps (record { mod_name = m; required = sort str_lt (a ∷ l) })
      (r.missing_deps, r.truncated))
put_open m _ _ r = r

dependency_guards :
    (m : Bytes) (present : Bool) (unmet : List Bytes) (r : ArchiveConflicts)
    → (if not present
        then r
        else if ltb 0 (length unmet)
        then (if leb max_missing_deps (length r.missing_deps)
            then record r { truncated = (r.truncated + 1) % 2 ^ 32 }
            else record r {
              missing_deps =
                  r.missing_deps ++ (record { mod_name = m; required = sort str_lt unmet } ∷ []);
            })
        else r)
      ≡ put_open m present unmet r
dependency_guards m false unmet r = refl
dependency_guards m true [] r = refl
dependency_guards m true (a ∷ l) r =
    let some_left : ltb 0 (length (a ∷ l)) ≡ true = omega tests in
    elim (Bool-cases (leb max_missing_deps (length r.missing_deps))) [
      | inl e ↦ rw (some_left, e) refl
      | inr e ↦ rw (some_left, e) refl
    ]

open_push :
    (m : Bytes) (present : Bool) (unmet : List Bytes) (rest : List MissingDep)
    (r : ArchiveConflicts)
    → with_deps (put_open m present unmet r) (
        push_all max_missing_deps rest
          ((put_open m present unmet r).missing_deps, (put_open m present unmet r).truncated))
      ≡ with_deps r
          (push_all max_missing_deps (put_unmet m present unmet rest) (r.missing_deps, r.truncated))
unfolding push_all
open_push m false unmet rest r = refl
open_push m true [] rest r = refl
open_push m true (a ∷ l) rest r = refl

judge_dependencies_push :
    (installed : List (Bytes × Bool)) (ep1 valid : Bool) (deps : List (Bytes × List Bytes))
    (r : ArchiveConflicts)
    → judge_dependencies installed ep1 valid deps r
      ≡ with_deps r (
          push_all max_missing_deps
            (open_deps installed ep1 valid deps)
            (r.missing_deps, r.truncated))
unfolding judge_dependencies judge_dependency push_all open_deps
judge_dependencies_push installed ep1 valid [] r = refl
judge_dependencies_push installed ep1 valid ((m, reqs) ∷ deps) r =
    let present = is_installed installed m in
    let unmet = keep_if (is_unmet installed ep1 valid) reqs in
    ap (judge_dependencies installed ep1 valid deps) (dependency_guards m present unmet r)
    ∙ judge_dependencies_push installed ep1 valid deps (put_open m present unmet r)
    ∙ open_push m present unmet (open_deps installed ep1 valid deps) r

abbrev pub installed_mods : ConflictDb → List Bytes → List (Bytes × Bool)
installed_mods db archives = installed_of (map lower archives) db.mods

-- The groups that are found, of the rules `db` and the archives of the installation, and the mods with
-- requirements that are not met.
abbrev pub groups_found : ConflictDb → List Bytes → List (List Bytes)
groups_found db archives =
    live_groups (installed_mods db archives) (excepted_pairs db.exceptions) db.conflicts

abbrev pub deps_found : ConflictDb → List Bytes → Bool → Bool → List MissingDep
deps_found db archives ep1 valid = open_deps (installed_mods db archives) ep1 valid db.dependencies

abbrev start_of : ConflictDb → ArchiveConflicts
start_of db = record {
  active = [];
  missing_deps = [];
  db_mod_count = length db.mods % 2 ^ 32;
  truncated = 0;
}

abbrev deps_onto : List MissingDep → ArchiveConflicts → ArchiveConflicts
deps_onto deps r = with_deps r (push_all max_missing_deps deps (r.missing_deps, r.truncated))

-- The result lists the first 64 groups with a mod left that another one conflicts with, and the first
-- 64 installed mods with a requirement that is not met, each list sorted, and counts the others
-- (modulo 2 ^ 32). No group is lost by the guards on its size.
pub evaluate_conflicts_lem :
    (db : ConflictDb) (archives : List Bytes) (ep1 valid : Bool)
    → let r = evaluate_conflicts db archives ep1 valid in
      (r.active ≡ sort list_lt (take max_conflict_groups (groups_found db archives)))
      × (r.missing_deps ≡ sort by_mod (take max_missing_deps (deps_found db archives ep1 valid)))
      × (r.truncated
          ≡ ((length (groups_found db archives) - max_conflict_groups)
              + (length (deps_found db archives ep1 valid) - max_missing_deps))
            % 2 ^ 32)
unfolding evaluate_conflicts
evaluate_conflicts_lem db archives ep1 valid =
    let installed = installed_mods db archives in
    let pairs = excepted_pairs db.exceptions in
    let grouped = push_all max_conflict_groups (groups_found db archives) ([], 0) in
    let lg =
      push_all_lem max_conflict_groups (groups_found db archives) [] 0 (omega arith)
        (omega arith) in
    let ld =
      push_all_lem max_missing_deps (deps_found db archives ep1 valid) [] grouped.1 (omega arith)
        (omega (arith, lg.1)) in
    let judged =
      judge_dependencies_push installed ep1 valid db.dependencies
        (judge_groups installed pairs db.conflicts (start_of db))
      ∙ ap (deps_onto (deps_found db archives ep1 valid))
          (judge_groups_push installed pairs db.conflicts (start_of db)) in
    (
      ap (λ x. sort list_lt x.active) judged ∙ ap (sort list_lt) lg.0,
      ap (λ x. sort by_mod x.missing_deps) judged ∙ ap (sort by_mod) ld.0,
      ap (λ x. x.truncated) judged ∙ omega (arith, lg.1, ld.1),
    )
