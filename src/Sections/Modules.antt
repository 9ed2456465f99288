-- ===== src/Sections/Modules.antt =====
-- src/report/Sections.cpp, `EmitLoadedModules`: the modules by their kinds. The versions, and the number of
-- modules that had no place in the table, are arguments.
use redscope.Base.{
  ℕ, ◌+◌, ◌-◌, ◌≡◌, refl, ◌∙◌, inl, inr, Bool, true, false, Option, none, some, List, [], ◌∷◌, ◌++◌,
  arith, ltb, ◌==◌, if◌then◌else◌, Bool-cases, Bytes, length, get_or, replicate, codes,
}
use redscope.Culprit.{lookup_plugin_meta}
use redscope.Format.{hex16}
use redscope.Json.{print_u}
use redscope.Modules.{ModuleKind, ModuleInfoFixed}
use redscope.Sections.{concat}
use redscope.Sidecar.Report.{name_at}
use redscope.Snapshot.{Snapshot, PluginInfo}

abbrev pub same_kind : ModuleKind → ModuleKind → Bool
same_kind ModuleKind.is_mod ModuleKind.is_mod = true
same_kind ModuleKind.game ModuleKind.game = true
same_kind ModuleKind.system ModuleKind.system = true
same_kind ModuleKind.unknown ModuleKind.unknown = true
same_kind _ _ = false

unfoldable pub count_kind : ModuleKind → List ModuleInfoFixed → ℕ
count_kind kind [] = 0
count_kind kind (m ∷ ms) =
    let rest = count_kind kind ms in if same_kind m.kind kind then rest + 1 else rest

-- `%-32s`.
abbrev pub pad_right : ℕ → Bytes → Bytes
pad_right n s = s ++ replicate (n - length s) b' '

abbrev author_part : Bytes → Bytes
author_part [] = []
author_part (c ∷ s) = codes "  by " ++ (c ∷ s)

abbrev pub version_part : Option PluginInfo → Bytes → Bytes
version_part none file_version = pad_right 12 file_version
version_part (some p) file_version = pad_right 12 p.version ++ author_part p.authors

unfoldable pub meta_of : Snapshot → ModuleKind → Bytes → Option PluginInfo
unfolding lookup_plugin_meta
meta_of s ModuleKind.is_mod name = lookup_plugin_meta s name
meta_of s _ name = none

unfoldable pub module_line : Snapshot → List Bytes → ModuleKind → ModuleInfoFixed → Bytes
unfolding meta_of
module_line s versions kind m =
    codes "  0x"
    ++ (hex16 m.base
        ++ (codes "  "
            ++ (pad_right 32 (name_at (some s) m.name_index)
                ++ (codes "  v"
                    ++ (version_part (meta_of s kind (name_at (some s) m.name_index))
                          (get_or versions m.version_index [])
                        ++ codes "\n")))))

unfoldable pub group_lines : Snapshot → List Bytes → ModuleKind → List ModuleInfoFixed → List Bytes
unfolding module_line
group_lines s versions kind [] = []
group_lines s versions kind (m ∷ ms) =
    let rest = group_lines s versions kind ms in
    if same_kind m.kind kind then module_line s versions kind m ∷ rest else rest

unfoldable pub emit_group : Snapshot → List Bytes → ModuleKind → Bytes → Bytes
unfolding count_kind group_lines
emit_group s versions kind label =
    label
    ++ (codes " ("
        ++ (print_u (count_kind kind s.modules)
            ++ (codes "):\n"
                ++ (if count_kind kind s.modules == 0
                    then codes "  (none)\n\n"
                    else concat (group_lines s versions kind s.modules) ++ codes "\n"))))

unfoldable pub other_group : Snapshot → List Bytes → Bytes
unfolding emit_group count_kind
other_group s versions =
    if ltb 0 (count_kind ModuleKind.unknown s.modules)
    then emit_group s versions ModuleKind.unknown (codes "Other")
    else []

abbrev pub overflow_line : ℕ → Bytes
overflow_line n =
    if ltb 0 n
    then codes "\n... (" ++ (print_u n ++ codes " more modules omitted; increase kMaxModules)\n")
    else []

unfoldable pub emit_loaded_modules : Option Snapshot → List Bytes → ℕ → Bytes
unfolding emit_group other_group count_kind
emit_loaded_modules none versions overflow =
    codes
      "--- Loaded modules ------------------------------------------------------------\n(snapshot not yet available)\n\n"
emit_loaded_modules (some s) versions overflow =
    codes "--- Loaded modules ------------------------------------------------------------\n"
    ++ (emit_group s versions ModuleKind.is_mod (codes "Mods")
        ++ (emit_group s versions ModuleKind.game (codes "Game")
            ++ (other_group s versions
                ++ (codes "System DLLs: "
                    ++ (print_u (count_kind ModuleKind.system s.modules)
                        ++ (codes " (Windows runtime, omitted from report)\n"
                            ++ (overflow_line overflow ++ codes "\n")))))))

-- The number in a group's title is the number of its lines.
group_lines-count :
    (s : Snapshot) (versions : List Bytes) (kind : ModuleKind) (ms : List ModuleInfoFixed)
    → length (group_lines s versions kind ms) ≡ count_kind kind ms
unfolding group_lines count_kind
group_lines-count s versions kind [] = refl
group_lines-count s versions kind (m ∷ ms) = elim (Bool-cases (same_kind m.kind kind)) [
  | inl e ↦ rw e (omega (arith, group_lines-count s versions kind ms))
  | inr e ↦ rw e (group_lines-count s versions kind ms)
]

split-kind :
    (k : ModuleKind) (m g y u : ℕ)
    → (if same_kind k ModuleKind.is_mod then m + 1 else m)
        + (if same_kind k ModuleKind.game then g + 1 else g)
        + (if same_kind k ModuleKind.system then y + 1 else y)
        + (if same_kind k ModuleKind.unknown then u + 1 else u)
      ≡ m + g + y + u + 1
split-kind ModuleKind.is_mod m g y u = omega arith
split-kind ModuleKind.game m g y u = omega arith
split-kind ModuleKind.system m g y u = omega arith
split-kind ModuleKind.unknown m g y u = omega arith

-- Every module is counted under exactly one kind.
count_kind_split :
    (ms : List ModuleInfoFixed)
    → count_kind ModuleKind.is_mod ms
        + count_kind ModuleKind.game ms
        + count_kind ModuleKind.system ms
        + count_kind ModuleKind.unknown ms
      ≡ length ms
unfolding count_kind
count_kind_split [] = refl
count_kind_split (m ∷ ms) =
    split-kind m.kind (count_kind ModuleKind.is_mod ms) (count_kind ModuleKind.game ms)
      (count_kind ModuleKind.system ms) (count_kind ModuleKind.unknown ms)
    ∙ omega (arith, count_kind_split ms)
