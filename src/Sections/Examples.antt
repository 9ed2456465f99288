-- ===== src/Sections/Examples.antt =====
-- Tests of the sections of the report.
use redscope.Base.{◌≡◌, refl, [], ◌∷◌, codes}
use redscope.Fingerprint.Examples.{snapshot}
use redscope.Format.{hex, hex16, decimal, digits_onto}
use redscope.Json.{print_u, print_llu}
use redscope.Sections.{
  setup_text, issue_line, conflicts_text, groups_text, group_line, missing_text, changes_text,
  mod_line, update_line,
}
use redscope.Sections.Modules.{emit_group, group_lines, module_line, meta_of, count_kind}
use redscope.Modules.{ModuleKind}

one_issue :
    setup_text (record { kind = codes "k"; detail = codes "d" } ∷ []) 2
    ≡ codes
        "Measured facts about your install (independent of this crash):\n  [k] d\n  ... 2 more not shown\n\n"
unfolding setup_text issue_line print_u decimal digits_onto
one_issue = refl

one_group :
    conflicts_text (record {
      active = (codes "A" ∷ codes "B" ∷ []) ∷ [];
      missing_deps = [];
      db_mod_count = 2;
      truncated = 0;
    })
    ≡ codes
        "Leads from the curated conflict database - verify before changing load order.\nConflicting groups (keep one of each):\n  - A, B\n\n"
unfolding conflicts_text groups_text group_line missing_text
one_group = refl

one_update :
    changes_text (record {
      added = [];
      removed = [];
      updated =
          (
            record { name = codes "m"; version = [] },
            record { name = codes "m"; version = codes "2" },
          )
          ∷ [];
    })
    ≡ codes "  ~1 updated:\n    m: (unversioned) -> 2\n\n"
unfolding changes_text mod_line update_line print_llu decimal digits_onto
one_update = refl

game_group :
    emit_group snapshot (codes "2.21" ∷ []) ModuleKind.game (codes "Game")
    ≡ codes "Game (1):\n  0x0000000140000000  Cyberpunk2077.exe                 v2.21        \n\n"
unfolding emit_group group_lines module_line meta_of count_kind hex16 hex digits_onto print_u
    decimal
game_group = refl
