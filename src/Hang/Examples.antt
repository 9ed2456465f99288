-- ===== src/Hang/Examples.antt =====
-- Tests of the watchdog, and its theorems at concrete checks.
use mathlib.Core.List.Perm
use redscope.Base.{ℕ, ◌*◌, ◌≡◌, refl, true, false, none, some, List, [], ◌∷◌, map, CStr, codes}
use redscope.Base.Int.{pos, ◌-ℤ◌}
use redscope.Base.Sort.{sort}
use redscope.ScriptStack.Heartbeat.{HeartbeatSlot, free_slot}
use redscope.Fingerprint.Examples.{snapshot}
use redscope.Hang.{
  HangInput, claimed, hang_names, collect_stuck_threads, compute_hang_id, check_for_hang,
  evaluate_hang, max_last,
}
use redscope.Hang.Edges.{run, observe, begins, run-begins}
use redscope.Hang.Ids.{compute_hang_id-Perm}

abbrev beat : ℕ → CStr → ℕ → HeartbeatSlot
beat tid name ns = record free_slot {
  thread_id = tid;
  last_full_name = name;
  last_entered_ns = pos ns;
}

abbrev slots_a : List HeartbeatSlot
slots_a =
    beat 7 (some (codes "Player.OnUpdate")) 5 ∷ free_slot ∷ beat 9 (some (codes "UI.Draw")) 2 ∷ []

abbrev slots_b : List HeartbeatSlot
slots_b =
    beat 3 (some (codes "UI.Draw")) 40
    ∷ beat 4 none 60
    ∷ beat 5 (some (codes "Player.OnUpdate")) 1
    ∷ []

compute_hang_id-Perm_example :
    compute_hang_id (collect_stuck_threads slots_a) none 12
    ≡ compute_hang_id (collect_stuck_threads slots_b) none 12
unfolding hang_names claimed
compute_hang_id-Perm_example =
    compute_hang_id-Perm slots_a slots_b none 12
      (Perm.swap (codes "UI.Draw") (codes "Player.OnUpdate") [])

-- A check at a time in seconds, with the last call at five nanoseconds.
abbrev check_at : ℕ → HangInput
check_at t = record {
  enabled = true;
  threshold_seconds = 45;
  respect_debugger = true;
  debugger_present = false;
  snap = some snapshot;
  slots = slots_a;
  now = pos (t * 1000000000);
}

abbrev checks : List HangInput
checks = check_at 40 ∷ check_at 50 ∷ check_at 60 ∷ record (check_at 70) { slots = [] } ∷ []

one_report : run false checks ≡ false ∷ true ∷ false ∷ false ∷ []
unfolding check_for_hang collect_stuck_threads sort evaluate_hang max_last ◌-ℤ◌
one_report = refl

run-begins_example : run false checks ≡ begins false (map observe checks)
run-begins_example = run-begins checks false
