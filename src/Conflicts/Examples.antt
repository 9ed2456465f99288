-- ===== src/Conflicts/Examples.antt =====
-- Tests of the known conflicts, and their theorem at concrete rules.
use redscope.Base.{
  ◌+◌, ◌-◌, ◌%◌, ◌^◌, ◌≡◌, refl, true, false, List, [], ◌∷◌, Bytes, str_eq, length, take, codes,
}
use redscope.Base.Sort.{sort, str_lt}
use redscope.Conflicts.{
  max_conflict_groups, max_missing_deps, phantom_liberty, ConflictModEntry, ConflictDb, contains,
  any_of, keep_if, is_installed, installed_of, pair_key, pair_keys, excepted_pairs, is_excepted,
  survivors, judge_group, judge_groups, judge_dependency, judge_dependencies, lower, list_lt,
  by_mod, evaluate_conflicts,
}
use redscope.Conflicts.Groups.{groups_found, deps_found, evaluate_conflicts_lem}
use redscope.Text.{to_lower_ascii}

abbrev entry_of : Bytes → ConflictModEntry
entry_of a = record { archives = a ∷ []; tags = [] }

-- Three mods of which two are an accepted pair, and one with two requirements.
abbrev rules : ConflictDb
rules = record {
  mods =
      (codes "A", entry_of (codes "a.archive"))
      ∷ (codes "B", entry_of (codes "b.archive"))
      ∷ (codes "C", entry_of (codes "c.archive"))
      ∷ [];
  dependencies = (codes "A", codes "D" ∷ phantom_liberty ∷ []) ∷ [];
  conflicts = (codes "C" ∷ codes "B" ∷ codes "A" ∷ []) ∷ (codes "A" ∷ codes "D" ∷ []) ∷ [];
  exceptions = (codes "B" ∷ codes "A" ∷ []) ∷ [];
}

abbrev archives : List Bytes
archives = codes "A.Archive" ∷ codes "b.archive" ∷ codes "c.archive" ∷ []

reported :
    let r = evaluate_conflicts rules archives false true in
    (r.active ≡ (codes "A" ∷ codes "B" ∷ codes "C" ∷ []) ∷ [])
    × (r.missing_deps
        ≡ record { mod_name = codes "A"; required = codes "D" ∷ phantom_liberty ∷ [] } ∷ [])
    × (r.truncated ≡ 0)
unfolding evaluate_conflicts judge_groups judge_group judge_dependencies judge_dependency
    installed_of excepted_pairs lower list_lt sort to_lower_ascii contains any_of keep_if
    is_installed pair_key pair_keys is_excepted survivors str_lt str_eq
reported = (refl, refl, refl)

-- Without C only the accepted pair is left.
accepted :
    (evaluate_conflicts rules (codes "a.archive" ∷ codes "b.archive" ∷ []) false true).active ≡ []
unfolding evaluate_conflicts judge_groups judge_group judge_dependencies judge_dependency
    installed_of excepted_pairs lower list_lt sort to_lower_ascii contains any_of keep_if
    is_installed pair_key pair_keys is_excepted survivors str_lt str_eq
accepted = refl

evaluate_conflicts_lem_example :
    let r = evaluate_conflicts rules archives false true in
    (r.active ≡ sort list_lt (take max_conflict_groups (groups_found rules archives)))
    × (r.missing_deps ≡ sort by_mod (take max_missing_deps (deps_found rules archives false true)))
    × (r.truncated
        ≡ ((length (groups_found rules archives) - max_conflict_groups)
            + (length (deps_found rules archives false true) - max_missing_deps))
          % 2 ^ 32)
evaluate_conflicts_lem_example = evaluate_conflicts_lem rules archives false true
