-- ===== src/GameState.antt =====
-- src/snapshot/GameStateLive.h and src/snapshot/GameStateLive.cpp: the values that scripts set under
-- names. The lock makes each call one step. `setNs` and `snapshotNs` are times and are left out.
pub mod Map
pub mod Examples
use redscope.Base.{
  ℕ, ◌-◌, Bool, true, false, Option, none, some, List, [], ◌∷◌, ◌++◌, leb, if◌then◌else◌, Bytes,
  CStr, str_eq, length, take,
}

pub record GameStateEntry : Type 0 where
  pub key : Bytes
  pub value : Bytes

-- `count` is the length of `entries`.
pub record GameStateLive : Type 0 where
  pub entries : List GameStateEntry
  pub has_data : Bool

abbrev pub game_state_max_entries : ℕ
game_state_max_entries = 48

abbrev pub no_game_state : GameStateLive
no_game_state = record { entries = []; has_data = false }

-- What `CopyFixed` leaves of a text in `cap` bytes.
abbrev pub fixed : ℕ → CStr → Bytes
fixed cap none = []
fixed cap (some s) = take (cap - 1) s

-- `strncmp(stored, key, 32) == 0`: the stored key has at most 31 bytes and a NUL.
unfoldable pub same_key : Bytes → Bytes → Bool
same_key stored key = str_eq (take 32 stored) (take 32 key)

abbrev pub put_before : GameStateEntry → Option (List GameStateEntry) → Option (List GameStateEntry)
put_before e none = none
put_before e (some es) = some (e ∷ es)

-- The loop, or none where no entry has the key.
unfoldable pub update_entry : Bytes → CStr → List GameStateEntry → Option (List GameStateEntry)
unfolding same_key
update_entry key value [] = none
update_entry key value (e ∷ es) =
    let rest = update_entry key value es in
    if same_key e.key key
    then some (record e { value = fixed 96 value } ∷ es)
    else put_before e rest

abbrev pub add_entry : Bytes → CStr → GameStateLive → GameStateLive
add_entry key value g = if leb game_state_max_entries (length g.entries) then g else record {
  entries = g.entries ++ (record { key = take 31 key; value = fixed 96 value } ∷ []);
  has_data = true;
}

abbrev pub updated : Bytes → CStr → GameStateLive → Option (List GameStateEntry) → GameStateLive
updated key value g none = add_entry key value g
updated key value g (some es) = record { entries = es; has_data = true }

unfoldable pub set_live_state : CStr → CStr → GameStateLive → GameStateLive
unfolding update_entry
set_live_state none value g = g
set_live_state (some []) value g = g
set_live_state (some (c ∷ k)) value g =
    updated (c ∷ k) value g (update_entry (c ∷ k) value g.entries)
