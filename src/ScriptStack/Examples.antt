-- ===== src/ScriptStack/Examples.antt =====
-- Tests of the shadow stack and the heartbeats, and their theorems at concrete inputs.
use redscope.Base.{
  ℕ, zero, suc, ◌+◌, ◌≤◌, ◌≡◌, refl, ◌≢◌, some, List, [], ◌∷◌, arith, get_elem?, replicate,
}
use redscope.Base.Int.{pos}
use redscope.ScriptStack.{Frame, no_frame, new_stack, max_depth, push, pop, visible}
use redscope.ScriptStack.Refines.{Event, enters, leaves, run, run-calls}
use redscope.ScriptStack.Heartbeat.{
  Thread, World, Phase, unclaimed, settled, free_slot, turn, action, try_claim, tid_at,
  max_heartbeat_threads,
}
use redscope.ScriptStack.Heartbeat as Heartbeat
use redscope.ScriptStack.Heartbeat.Owned.{Inv, held, run-exclusive}

abbrev frame : ℕ → Frame
frame n = record no_frame { func_hash = n; entered_ns = pos n }

abbrev history : List Event
history = enters (frame 1) ∷ enters (frame 2) ∷ leaves ∷ enters (frame 3) ∷ []

two_calls : visible (run new_stack history) ≡ frame 1 ∷ frame 3 ∷ []
unfolding run push pop
two_calls = refl

run-calls_example :
    (visible (run new_stack history) ≡ frame 1 ∷ frame 3 ∷ [])
    × ((run new_stack history).depth + (run new_stack history).overflow ≡ 2)
    × ((run new_stack history).max_depth_seen ≤ max_depth)
run-calls_example = run-calls history (omega arith)

-- Two threads at rest, and a free table.
abbrev two_threads : World
two_threads = record {
  beats = replicate max_heartbeat_threads free_slot;
  threads = record { tid = 7; phase = unclaimed } ∷ record { tid = 9; phase = unclaimed } ∷ [];
}

-- The threads take turns, scan the same slot, and the second finds it taken.
abbrev schedule : List (ℕ × Frame)
schedule =
    (0, frame 1) ∷ (1, frame 2) ∷ (0, frame 1) ∷ (1, frame 2) ∷ (0, frame 1) ∷ (1, frame 2) ∷ []

claims :
    (tid_at (Heartbeat.run schedule two_threads).beats 0 ≡ some 7)
    × (tid_at (Heartbeat.run schedule two_threads).beats 1 ≡ some 9)
unfolding Heartbeat.run turn action
claims = (refl, refl)

two_threads-Inv : Inv two_threads
two_threads-Inv = record { owned = go }
  where
    go :
        (u : ℕ) (th : Thread)
        → get_elem? two_threads.threads u ≡ some th
        → (th.tid ≢ 0)
          × ((i : ℕ) → held th.phase ≡ some i → tid_at two_threads.beats i ≡ some th.tid)
    go zero th e = ((λ z. ground arith), λ i h. ground arith)
    go (suc zero) th e = ((λ z. ground arith), λ i h. ground arith)
    go (suc (suc u)) th e = cc

abbrev writer : Thread
writer = record { tid = 7; phase = Phase.writes_class 0 (frame 1) }

run-exclusive_example :
    ◌≡◌ {A = ℕ} 7 7 × (tid_at (Heartbeat.run schedule two_threads).beats 0 ≡ some 7)
unfolding Heartbeat.run turn action
run-exclusive_example =
    run-exclusive schedule two_threads two_threads-Inv 0 0 0 writer writer refl refl refl refl
