-- ===== src/Config/Bounds.antt =====
-- src/Config.cpp, `LoadConfig`: whatever the file holds, the numbers lie in their ranges.
use redscope.Base.{ℕ, ◌^◌, ◌≤◌, ◌<◌, Option, none, some, List, arith, Bytes, codes}
use redscope.Stream.{getlines}
use redscope.Config.{
  stoul, parse_uint, parse_uint_clamped, find_setting, Config, uint_or, clamped_or, config_of,
  load_config, read_ini, no_settings,
}

clamped_bounds :
    (v : Bytes) (def lo hi : ℕ)
    → lo ≤ hi
    → (lo ≤ parse_uint_clamped v def lo hi) × (parse_uint_clamped v def lo hi ≤ hi)
unfolding parse_uint_clamped
clamped_bounds v def lo hi h = ground arith

clamped_or_bounds :
    (o : Option Bytes) (def lo hi : ℕ)
    → lo ≤ def
    → def ≤ hi
    → (lo ≤ clamped_or o def lo hi) × (clamped_or o def lo hi ≤ hi)
clamped_or_bounds none def lo hi h k = (h, k)
clamped_or_bounds (some v) def lo hi h k = clamped_bounds v def lo hi (omega arith)

parse_uint_lt : (v : Bytes) (def : ℕ) → def < 2 ^ 32 → parse_uint v def < 2 ^ 32
unfolding parse_uint stoul
parse_uint_lt v def h = ground arith

uint_or_lt : (o : Option Bytes) (def : ℕ) → def < 2 ^ 32 → uint_or o def < 2 ^ 32
uint_or_lt none def h = h
uint_or_lt (some v) def h = parse_uint_lt v def h

-- The numbers that sizes of buffers and the waits of threads are taken from.
pub record InRange (c : Config) : Type 0 where
  pub files : (1 ≤ c.max_crash_files) × (c.max_crash_files ≤ 10000)
  pub entities : (4 ≤ c.find_entity_ring_size) × (c.find_entity_ring_size ≤ 4096)
  pub tweaks : (4 ≤ c.tweak_db_ring_size) × (c.tweak_db_ring_size ≤ 4096)
  pub archives : (4 ≤ c.archive_ring_size) × (c.archive_ring_size ≤ 4096)
  pub interval : (50 ≤ c.snapshot_interval_ms) × (c.snapshot_interval_ms ≤ 60000)
  pub slots : (1 ≤ c.stack_dump_slot_count) × (c.stack_dump_slot_count ≤ 65536)
  pub inject : c.test_inject_crash_after_seconds < 2 ^ 32
  pub threshold : c.hang_threshold_seconds < 2 ^ 32

config_of-InRange : (kv : List (Bytes × Bytes)) → InRange (config_of kv)
unfolding config_of
config_of-InRange kv = record {
  files =
      clamped_or_bounds (find_setting (codes "core.max_crash_files") kv) 50 1 10000 (omega arith)
        (omega arith);
  entities =
      clamped_or_bounds (find_setting (codes "buffers.find_entity_ring_size") kv) 32 4 4096
        (omega arith) (omega arith);
  tweaks =
      clamped_or_bounds (find_setting (codes "buffers.tweakdb_ring_size") kv) 16 4 4096
        (omega arith) (omega arith);
  archives =
      clamped_or_bounds (find_setting (codes "buffers.archive_ring_size") kv) 16 4 4096
        (omega arith) (omega arith);
  interval =
      clamped_or_bounds (find_setting (codes "buffers.snapshot_interval_ms") kv) 500 50 60000
        (omega arith) (omega arith);
  slots =
      clamped_or_bounds (find_setting (codes "stack.dump_slot_count") kv) 512 1 65536 (omega arith)
        (omega arith);
  inject =
      uint_or_lt (find_setting (codes "test.test_inject_crash_after_seconds") kv) 0 (omega arith);
  threshold =
      uint_or_lt (find_setting (codes "watchdog.hang_threshold_seconds") kv) 45 (omega arith);
}

-- Whatever the file of the settings holds, also where it cannot be opened: each number that has limits
-- lies within them, and the two others fit into 32 bits.
pub load_config-InRange : (text : Option Bytes) → InRange (load_config text)
unfolding load_config
load_config-InRange none = record {
  files = omega arith;
  entities = omega arith;
  tweaks = omega arith;
  archives = omega arith;
  interval = omega arith;
  slots = omega arith;
  inject = omega arith;
  threshold = omega arith;
}
load_config-InRange (some text) = config_of-InRange (read_ini (getlines text) no_settings).kv
