-- ===== src/Sections.antt =====
-- src/report/Sections.cpp and src/report/SetupSections.cpp: sections of the report that write down what the
-- snapshot holds, as the text that is appended to the buffer; that a text fits is about Buffer. Fields that
-- nothing else reads, and the local time of the last launch, are arguments.
pub mod Modules
pub mod Examples
use redscope.Base.{
  ℕ, ◌-◌, ◌/◌, ◌^◌, ◌<◌, Bool, true, false, not, ◌&&◌, Option, none, some, List, [], ◌∷◌, ◌++◌, map,
  ltb, ◌==◌, if◌then◌else◌, Bytes, length, set, codes,
}
use redscope.Base.Int.{ℤ}
use redscope.Conflicts.{MissingDep, ArchiveConflicts}
use redscope.Format.{hex8, hex16, decimal}
use redscope.Json.{print_u, print_llu, listed}
use redscope.Session.{ModSnapshot, ModDiff}
use redscope.Setup.{SetupIssue, SetupIntegrity}
use redscope.Sidecar.Report.Sections.{engine_state_name}
use redscope.Snapshot.{Snapshot}
use redscope.Stream.{is_empty}

abbrev not_yet : Bytes
not_yet = codes "(snapshot not yet available)\n\n"

-- One text after the other.
abbrev pub concat : List Bytes → Bytes
concat [] = []
concat (x ∷ xs) = x ++ concat xs

unfoldable pub issue_line : SetupIssue → Bytes
issue_line i = codes "  [" ++ (i.kind ++ (codes "] " ++ (i.detail ++ codes "\n")))

abbrev pub more_issues : ℕ → Bytes
more_issues n = if ltb 0 n then codes "  ... " ++ (print_u n ++ codes " more not shown\n") else []

unfoldable pub setup_text : List SetupIssue → ℕ → Bytes
unfolding issue_line
setup_text [] truncated = codes "(no install problems detected)\n\n"
setup_text (i ∷ is) truncated =
    codes "Measured facts about your install (independent of this crash):\n"
    ++ (concat (map issue_line (i ∷ is)) ++ (more_issues truncated ++ codes "\n"))

unfoldable pub emit_setup_integrity_section : Option Snapshot → Bytes
unfolding setup_text
emit_setup_integrity_section none =
    codes "--- Setup integrity -----------------------------------------------------------\n"
    ++ not_yet
emit_setup_integrity_section (some s) =
    codes "--- Setup integrity -----------------------------------------------------------\n"
    ++ setup_text s.setup_integrity.issues s.setup_integrity.truncated

unfoldable pub group_line : List Bytes → Bytes
group_line mods = codes "  - " ++ (listed mods ++ codes "\n")

unfoldable pub missing_line : MissingDep → Bytes
missing_line d =
    codes "  - " ++ (d.mod_name ++ (codes " requires " ++ (listed d.required ++ codes "\n")))

unfoldable pub groups_text : List (List Bytes) → Bytes
unfolding group_line
groups_text [] = []
groups_text (g ∷ gs) =
    codes "Conflicting groups (keep one of each):\n" ++ concat (map group_line (g ∷ gs))

unfoldable pub missing_text : List MissingDep → Bytes
unfolding missing_line
missing_text [] = []
missing_text (d ∷ ds) = codes "Missing dependencies:\n" ++ concat (map missing_line (d ∷ ds))

abbrev pub is_none {ℓ} : {A : Type ℓ} → List A → Bool
is_none [] = true
is_none (x ∷ xs) = false

unfoldable pub conflicts_text : ArchiveConflicts → Bytes
unfolding groups_text missing_text
conflicts_text ac =
    if is_none ac.active && is_none ac.missing_deps
    then (if ac.db_mod_count == 0
        then codes "(no curated conflict database loaded)\n\n"
        else codes "(no active conflicts among your installed mods)\n\n")
    else codes "Leads from the curated conflict database - verify before changing load order.\n"
      ++ (groups_text ac.active ++ (missing_text ac.missing_deps ++ codes "\n"))

unfoldable pub emit_archive_conflicts_section : Option Snapshot → Bytes
unfolding conflicts_text
emit_archive_conflicts_section none =
    codes "--- Archive conflicts (curated) -----------------------------------------------\n"
    ++ not_yet
emit_archive_conflicts_section (some s) =
    codes "--- Archive conflicts (curated) -----------------------------------------------\n"
    ++ conflicts_text s.archive_conflicts

-- `memory` of the snapshot.
pub record ProcessMemory : Type 0 where
  pub working_set_bytes : ℕ
  pub commit_bytes : ℕ
  pub virtual_bytes : ℕ
  pub handle_count : ℕ

unfoldable pub emit_process_memory : Option ProcessMemory → Bytes
emit_process_memory none =
    codes "--- Process memory ------------------------------------------------------------\n"
    ++ not_yet
emit_process_memory (some m) =
    codes "--- Process memory ------------------------------------------------------------\n"
    ++ (codes "Working set : "
        ++ (print_llu (m.working_set_bytes / 2 ^ 20)
            ++ (codes " MB\nCommit      : "
                ++ (print_llu (m.commit_bytes / 2 ^ 20)
                    ++ (codes " MB\nVirtual     : "
                        ++ (print_llu (m.virtual_bytes / 2 ^ 20)
                            ++ (codes " MB\nHandles     : "
                                ++ (print_u m.handle_count ++ codes "\n\n"))))))))

abbrev pub true_false : Bool → Bytes
true_false b = if b then codes "true" else codes "false"

unfoldable pub engine_flags : Snapshot → Bytes
unfolding engine_state_name
engine_flags s =
    if s.engine_read_ok
    then codes "Engine state    : "
      ++ (engine_state_name s.engine_state_raw
          ++ (codes "\nScripts loaded  : "
              ++ (true_false s.scripts_loaded
                  ++ (codes "\nEngine closing  : "
                      ++ ((if s.is_closing
                            then codes "true  (crash during shutdown)"
                            else codes "false")
                          ++ (codes "\nPhantom Liberty : "
                              ++ (true_false s.is_ep1 ++ codes "\n")))))))
    else codes "Engine flags    : (unavailable)\n"

unfoldable pub gpu_line : Snapshot → Bytes
gpu_line s =
    if s.gpu_read_ok
    then codes "GPU memory      : "
      ++ (print_u s.gpu_used_mb
          ++ (codes " / "
              ++ (print_u s.gpu_dedicated_mb
                  ++ (codes " MB used (budget " ++ (print_u s.gpu_budget_mb ++ codes " MB)\n")))))
    else codes "GPU memory      : (unavailable)\n"

unfoldable pub oom_line : Snapshot → Bytes
oom_line s =
    if s.oom_suspected
    then codes "OOM suspected   : true  <-- " ++ (s.oom_basis ++ codes "\n")
    else codes "OOM suspected   : false\n"

unfoldable pub engine_text : Option Snapshot → Bytes
unfolding engine_flags gpu_line oom_line
engine_text none = codes "(engine state not yet sampled)\n\n"
engine_text (some s) =
    if s.has_data
    then engine_flags s ++ (gpu_line s ++ (oom_line s ++ codes "\n"))
    else codes "(engine state not yet sampled)\n\n"

unfoldable pub emit_engine_state_section : Option Snapshot → Bytes
unfolding engine_text
emit_engine_state_section s =
    codes "--- Engine state (at crash) ---------------------------------------------------\n"
    ++ engine_text s

abbrev pub space_before : Bytes → Bytes
space_before [] = []
space_before (c ∷ s) = b' ' ∷ (c ∷ s)

unfoldable pub mod_line : ModSnapshot → Bytes
mod_line m = codes "    " ++ (m.name ++ (space_before m.version ++ codes "\n"))

abbrev pub version_text : Bytes → Bytes
version_text [] = codes "(unversioned)"
version_text (c ∷ s) = c ∷ s

unfoldable pub update_line : ModSnapshot × ModSnapshot → Bytes
update_line u =
    codes "    "
    ++ (u.0.name
        ++ (codes ": "
            ++ (version_text u.0.version
                ++ (codes " -> " ++ (version_text u.1.version ++ codes "\n")))))

-- A part of the section with its count, if it has a line.
abbrev pub counted_part : Bytes → Bytes → List Bytes → Bytes
counted_part before behind [] = []
counted_part before behind (x ∷ xs) =
    before ++ (print_llu (length (x ∷ xs)) ++ (behind ++ concat (x ∷ xs)))

unfoldable pub changes_text : ModDiff → Bytes
unfolding mod_line update_line
changes_text d =
    if is_none d.added && is_none d.removed && is_none d.updated
    then codes "No modlist changes since last launch.\n\n"
    else counted_part (codes "  +") (codes " added:\n") (map mod_line d.added)
      ++ (counted_part (codes "  -") (codes " removed:\n") (map mod_line d.removed)
          ++ (counted_part (codes "  ~") (codes " updated:\n") (map update_line d.updated)
              ++ codes "\n"))

-- The time of the last launch, where it is positive, as `strftime` writes it.
abbrev pub launch_time : Option Bytes → Bytes
launch_time none = codes "(unknown time)"
launch_time (some t) = t

unfoldable pub emit_since_last_launch : Option Snapshot → Option Bytes → ℕ → Bytes
unfolding changes_text
emit_since_last_launch none time prior_count =
    codes "--- Modlist changes since last launch -----------------------------------------\n"
    ++ not_yet
emit_since_last_launch (some s) time prior_count =
    codes "--- Modlist changes since last launch -----------------------------------------\n"
    ++ (if s.prior_file_present
        then codes "Last launch: "
          ++ (launch_time time
              ++ (codes "  ("
                  ++ (print_u prior_count
                      ++ (codes " mods tracked)\n" ++ changes_text s.mod_diff))))
        else codes "(first run since REDscope install; no prior launch recorded)\n\n")
