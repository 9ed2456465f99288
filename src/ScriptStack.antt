-- ===== src/ScriptStack.antt =====
-- src/hooks/ScriptStack.h and src/hooks/ScriptStack.cpp: the shadow stack of scripted calls that
-- each thread keeps, and the table of heartbeats that the threads share.
pub mod Refines
pub mod Heartbeat
pub mod Examples
use redscope.Base.{
  ℕ, ◌+◌, ◌-◌, ◌%◌, ◌^◌, none, List, ltb, if◌then◌else◌, CStr, set, take, replicate,
}
use redscope.Base.Int.{ℤ, pos}

pub record Frame : Type 0 where
  pub full_name : CStr
  pub this_class_name : CStr
  pub func_hash : ℕ
  pub class_hash : ℕ
  pub entered_ns : ℤ

abbrev pub no_frame : Frame
no_frame = record {
  full_name = none;
  this_class_name = none;
  func_hash = 0;
  class_hash = 0;
  entered_ns = pos 0;
}

abbrev pub max_depth : ℕ
max_depth = 128

-- `frames` is the whole array, `max_depth` long.
pub record ThreadStack : Type 0 where
  pub frames : List Frame
  pub depth : ℕ
  pub overflow : ℕ
  pub max_depth_seen : ℕ

abbrev pub new_stack : ThreadStack
new_stack = record {
  frames = replicate max_depth no_frame;
  depth = 0;
  overflow = 0;
  max_depth_seen = 0;
}

-- The part of `Push` behind `UpdateHeartbeat`. The counters are 32 bits wide.
unfoldable pub push : Frame → ThreadStack → ThreadStack
push f s =
    if ltb s.depth max_depth
    then (let d = (s.depth + 1) % 2 ^ 32 in
        record s {
          frames = set s.frames s.depth f;
          depth = d;
          max_depth_seen = if ltb s.max_depth_seen d then d else s.max_depth_seen;
        })
    else record s { overflow = (s.overflow + 1) % 2 ^ 32 }

unfoldable pub pop : ThreadStack → ThreadStack
pop s =
    if ltb 0 s.overflow
    then record s { overflow = s.overflow - 1 }
    else if ltb 0 s.depth
    then record s { depth = s.depth - 1 }
    else s

unfoldable pub reset_for_test : ThreadStack → ThreadStack
reset_for_test s = record s { depth = 0; overflow = 0; max_depth_seen = 0 }

-- What a reader of `Current()` sees, innermost call last.
abbrev pub visible : ThreadStack → List Frame
visible s = take s.depth s.frames
