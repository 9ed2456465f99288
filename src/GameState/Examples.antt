-- ===== src/GameState/Examples.antt =====
-- Tests of the state that scripts set, and its theorem at a concrete state.
use redscope.Base.{◌≡◌, refl, true, some, [], ◌∷◌, arith, Bytes, str_eq, length, replicate, codes}
use redscope.GameState.{GameStateLive, no_game_state, same_key, update_entry, set_live_state}
use redscope.GameState.Map.{value_at, IsStored, Sets, set_live_state-Sets}

abbrev district : Bytes
district = codes "district"

abbrev one_set : GameStateLive
one_set = record {
  entries = record { key = district; value = codes "Watson" } ∷ [];
  has_data = true;
}

set_again :
    value_at district (set_live_state (some district) (some (codes "Pacifica")) one_set).entries
    ≡ some (codes "Pacifica")
unfolding set_live_state update_entry same_key str_eq value_at
set_again = refl

abbrev long_name : Bytes
long_name = replicate 32 b'a'

-- The second call does not find the entry of the first.
set_twice :
    length
      (set_live_state
        (some long_name)
        (some (codes "2"))
        (set_live_state (some long_name) (some (codes "1")) no_game_state)).entries
    ≡ 2
unfolding set_live_state update_entry same_key str_eq
set_twice = refl

one_set-IsStored : IsStored one_set
one_set-IsStored = record { keys = (omega arith, tt); room = omega arith }

set_live_state-Sets_example :
    Sets district
      (some (codes "Pacifica"))
      one_set
      (set_live_state (some district) (some (codes "Pacifica")) one_set)
set_live_state-Sets_example =
    set_live_state-Sets b'd' (codes "istrict") (some (codes "Pacifica")) one_set (omega arith)
      one_set-IsStored
