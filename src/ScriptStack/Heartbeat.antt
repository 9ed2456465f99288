-- ===== src/ScriptStack/Heartbeat.antt =====
-- src/hooks/ScriptStack.cpp: the heartbeat table, shared by all threads. A world is the table and
-- the threads, and one step is one atomic action of a thread: one compare-and-exchange of a scan
-- for a free slot, or the write of one field of its own slot.
pub mod Owned
use redscope.Base.{
  ℕ, zero, suc, ◌+◌, Option, none, some, List, [], ◌∷◌, ltb, leb, ◌==◌, if◌then◌else◌, CStr,
  get_elem?, set, replicate,
}
use redscope.Base.Int.{ℤ, pos}
use redscope.ScriptStack.{Frame}

pub record HeartbeatSlot : Type 0 where
  pub thread_id : ℕ
  pub last_full_name : CStr
  pub last_this_class_name : CStr
  pub last_func_hash : ℕ
  pub last_class_hash : ℕ
  pub last_entered_ns : ℤ

abbrev pub free_slot : HeartbeatSlot
free_slot = record {
  thread_id = 0;
  last_full_name = none;
  last_this_class_name = none;
  last_func_hash = 0;
  last_class_hash = 0;
  last_entered_ns = pos 0;
}

abbrev pub max_heartbeat_threads : ℕ
max_heartbeat_threads = 16

-- Where a thread stands: `t_slotIndex` is -1 in the first two, and the slot in the others.
pub data Phase : Type 0 where
  unclaimed : Phase
  scanning : ℕ → Frame → Phase
  writes_func writes_class writes_entered : ℕ → Frame → Phase
  settled : ℕ → Phase

pub record Thread : Type 0 where
  pub tid : ℕ
  pub phase : Phase

pub record World : Type 0 where
  pub beats : List HeartbeatSlot
  pub threads : List Thread

abbrev pub modify {ℓ} : {A : Type ℓ} → List A → ℕ → (A → A) → List A
modify [] i g = []
modify (x ∷ xs) zero g = g x ∷ xs
modify (x ∷ xs) (suc i) g = x ∷ modify xs i g

abbrev pub tid_at : List HeartbeatSlot → ℕ → Option ℕ
tid_at bs i = elim (get_elem? bs i) [ none ↦ none | some b ↦ some b.thread_id ]

-- One `compare_exchange_strong` of `ClaimHeartbeatSlot`, and where the thread goes from there.
unfoldable pub try_claim : ℕ → ℕ → Frame → List HeartbeatSlot → List HeartbeatSlot × Phase
try_claim tid i f bs = elim (tid_at bs i) [
  | none ↦ (bs, unclaimed)
  | some t ↦
      if t == 0
      then (modify bs i (λ b. record b { thread_id = tid }), writes_func i f)
      else (bs, if ltb (i + 1) max_heartbeat_threads then scanning (i + 1) f else unclaimed)
]

-- One atomic action of `UpdateHeartbeat`, for a push of the frame `f` when one begins.
unfoldable pub action : ℕ → Phase → Frame → List HeartbeatSlot → List HeartbeatSlot × Phase
unfolding try_claim
action tid unclaimed f bs = (bs, scanning 0 f)
action tid (scanning i g) f bs = try_claim tid i g bs
action tid (writes_func i g) f bs =
    (modify bs i (λ b. record b { last_func_hash = g.func_hash }), writes_class i g)
action tid (writes_class i g) f bs =
    (modify bs i (λ b. record b { last_class_hash = g.class_hash }), writes_entered i g)
action tid (writes_entered i g) f bs =
    (modify bs i (λ b. record b { last_entered_ns = g.entered_ns }), settled i)
action tid (settled i) f bs = (bs, writes_func i f)

-- The thread at place `t` makes its next action.
unfoldable pub turn : ℕ → Frame → World → World
turn t f w = elim (get_elem? w.threads t) [
  | none ↦ w
  | some th ↦
      let (bs, p) = action th.tid th.phase f w.beats in
      record { beats = bs; threads = set w.threads t (record th { phase = p }) }
]

unfoldable pub run : List (ℕ × Frame) → World → World
run [] w = w
run ((t, f) ∷ ts) w = run ts (turn t f w)

-- `TestWriteHeartbeat`.
unfoldable pub test_write_heartbeat : ℕ → ℕ → CStr → ℤ → List HeartbeatSlot → List HeartbeatSlot
test_write_heartbeat i tid name entered bs =
    if leb max_heartbeat_threads i
    then bs
    else modify bs i (λ b. record b {
      thread_id = tid;
      last_full_name = name;
      last_this_class_name = none;
      last_entered_ns = entered;
    })

-- `ResetHeartbeatsForTest`, called by the thread at place `t`.
unfoldable pub reset_heartbeats_for_test : ℕ → World → World
reset_heartbeats_for_test t w = record {
  beats = replicate max_heartbeat_threads free_slot;
  threads = modify w.threads t (λ th. record th { phase = unclaimed });
}
