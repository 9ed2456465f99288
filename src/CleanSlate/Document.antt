-- ===== src/CleanSlate/Document.antt =====
-- src/cleanslate/CleanCore.cpp, `ToJson`: the report as a file. The time is an argument; `JsonEsc` of
-- src/cleanslate/Util.h writes what `AppendJsonStringN` of src/report/JsonSidecar.cpp writes.
use redscope.Base.{
  ◌+◌, ◌%◌, ◌^◌, ◌≡◌, refl, ◌∙◌, Bool, List, [], ◌∷◌, ◌++◌, append_assoc, ◌==◌, Bytes, codes,
}
use redscope.Base.Int.{ℤ}
use redscope.CleanSlate.{
  Manager, unknown, none_found, mo2, vortex, FileClass, managed, managed_infra, loose,
  outdated_orphan, ScannedFile, CleanReport,
}
use redscope.Json.{json_text, print_u, print_lld, json_bool}
use redscope.Json.Accept.{
  Context, in_object, in_array, value, first_item, after, text, run, Runs, run-append, IsJson,
}
use redscope.Json.Lists.{IsItem, json_laws}

unfoldable pub manager_name : Manager → Bytes
manager_name none_found = codes "None"
manager_name mo2 = codes "MO2"
manager_name vortex = codes "Vortex"
manager_name unknown = codes "Unknown"

unfoldable pub file_class_name : FileClass → Bytes
file_class_name managed = codes "managed"
file_class_name managed_infra = codes "managed-infra"
file_class_name loose = codes "loose"
file_class_name outdated_orphan = codes "orphan"

unfoldable pub finding_item : ScannedFile → Bytes
unfolding file_class_name
finding_item f =
    codes "\n    { \"relPath\": "
    ++ (json_text f.rel_path
        ++ (codes ", \"class\": \""
            ++ (file_class_name f.cls
                ++ (codes "\", \"sourceMod\": "
                    ++ (json_text f.source_mod
                        ++ (codes ", \"reason\": " ++ (json_text f.reason ++ codes " }")))))))

-- A comma stands before each finding but the first.
unfoldable pub more_findings : List ScannedFile → Bytes
unfolding finding_item
more_findings [] = codes "\n  ]\n}\n"
more_findings (f ∷ fs) = codes "," ++ (finding_item f ++ more_findings fs)

unfoldable pub findings_text : List ScannedFile → Bytes
unfolding finding_item more_findings
findings_text [] = codes "]\n}\n"
findings_text (f ∷ fs) = finding_item f ++ more_findings fs

-- `clean`: the sum has 32 bits.
abbrev pub is_clean : CleanReport → Bool
is_clean r = (r.loose_count + r.orphan_count) % 2 ^ 32 == 0

unfoldable pub counts_part : CleanReport → Bytes
counts_part r =
    codes "  \"counts\": { \"scanned\": "
    ++ (print_u r.scanned
        ++ (codes ", \"managed\": "
            ++ (print_u r.managed_count
                ++ (codes ", \"managedInfra\": "
                    ++ (print_u r.infra_count
                        ++ (codes ", \"loose\": "
                            ++ (print_u r.loose_count
                                ++ (codes ", \"orphan\": "
                                    ++ (print_u r.orphan_count ++ codes " },\n")))))))))

unfoldable pub to_json : ℤ → CleanReport → Bytes
unfolding manager_name findings_text counts_part
to_json time r =
    codes "{\n  \"tool\": \"CleanSlate\",\n  \"schema\": 1,\n  \"timeUnix\": "
    ++ (print_lld time
        ++ (codes ",\n  \"gameDir\": "
            ++ (json_text r.game_dir
                ++ (codes ",\n  \"manager\": \""
                    ++ (manager_name r.manager
                        ++ (codes "\",\n  \"managerDetail\": "
                            ++ (json_text r.manager_detail
                                ++ (codes ",\n  \"mo2Running\": "
                                    ++ (json_bool r.mo2_running
                                        ++ (codes ",\n  \"vortexWillRedeploy\": "
                                            ++ (json_bool r.vortex_will_redeploy
                                                ++ (codes ",\n  \"clean\": "
                                                    ++ (json_bool (is_clean r)
                                                        ++ (codes ",\n"
                                                            ++ (counts_part r
                                                            ++ (codes "  \"findings\": ["
                                                            ++ findings_text
                                                            r.findings))))))))))))))))

manager_run :
    (m : Manager) (t : Bytes) (key : Bool) (stack : List Context)
    → run (manager_name m ++ t) (text key, stack) ≡ run t (text key, stack)
unfolding manager_name run
manager_run none_found t key stack = refl
manager_run mo2 t key stack = refl
manager_run vortex t key stack = refl
manager_run unknown t key stack = refl

class_run :
    (c : FileClass) (t : Bytes) (key : Bool) (stack : List Context)
    → run (file_class_name c ++ t) (text key, stack) ≡ run t (text key, stack)
unfolding file_class_name run
class_run managed t key stack = refl
class_run managed_infra t key stack = refl
class_run loose t key stack = refl
class_run outdated_orphan t key stack = refl

finding_item-IsItem : (f : ScannedFile) → IsItem (finding_item f)
unfolding finding_item run
finding_item-IsItem f = (λ stack. simp (json_laws, class_run), λ stack. simp (json_laws, class_run))

more_findings-Runs :
    (fs : List ScannedFile) → Runs (more_findings fs) (after, in_array ∷ in_object ∷ []) (after, [])
unfolding more_findings run
more_findings-Runs [] = refl
more_findings-Runs (f ∷ fs) =
    run-append (finding_item f) (more_findings fs) (value, in_array ∷ in_object ∷ [])
      (after, in_array ∷ in_object ∷ []) ((finding_item-IsItem f).0 (in_array ∷ in_object ∷ []))
    ∙ more_findings-Runs fs

findings_text-Runs :
    (fs : List ScannedFile)
    → Runs (findings_text fs) (first_item, in_array ∷ in_object ∷ []) (after, [])
unfolding findings_text run
findings_text-Runs [] = refl
findings_text-Runs (f ∷ fs) =
    run-append (finding_item f) (more_findings fs) (first_item, in_array ∷ in_object ∷ [])
      (after, in_array ∷ in_object ∷ []) ((finding_item-IsItem f).1 (in_array ∷ in_object ∷ []))
    ∙ more_findings-Runs fs

-- The report of a scan is one value of JSON, whatever the scan has found.
pub to_json-IsJson : (time : ℤ) (r : CleanReport) → IsJson (to_json time r)
unfolding to_json counts_part run
to_json-IsJson time r = simp (append_assoc, json_laws, manager_run, findings_text-Runs)
