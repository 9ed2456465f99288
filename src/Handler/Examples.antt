-- ===== src/Handler/Examples.antt =====
-- Tests of the exception handler, and its theorems at concrete runs.
use redscope.Base.{ℕ, ◌≡◌, refl, ◌⊎◌, true, false, none, some, [], ◌∷◌, get_elem?}
use redscope.Handler.{
  HandlerConfig, ExceptionEvent, running, writing, ending, World, should_handle, wanted,
  enter_handler, leave_handler, terminate_process, raises, raises_again, reports, ends, Reach, here,
  next, new_world,
}
use redscope.Handler.Exclusive.{IsExclusive, Reach-IsExclusive, Frees, flag_freed}

abbrev ending_config : HandlerConfig
ending_config = record { respect_debugger = true; terminate_after_report = true }

abbrev violation : ExceptionEvent
violation = record { debugger_present = false; code = some 0xC0000005 }

handled :
    (should_handle 0xC0000005 ≡ true)
    × (should_handle 0xE06D7363 ≡ false)
    × (wanted ending_config (record violation { debugger_present = true }) ≡ none)
    × (wanted ending_config violation ≡ some 0xC0000005)
unfolding should_handle wanted
handled = (refl, refl, refl, refl)

-- The first thread of two meets a violation, and its report meets another one.
abbrev first_raised : World
first_raised = record (new_world 2) {
  handler_in_progress = 1;
  threads = writing 0xC0000005 ∷ running ∷ [];
}

raised : Reach ending_config (new_world 2) first_raised
unfolding enter_handler wanted should_handle
raised = next (new_world 2) first_raised here (raises (new_world 2) 0 violation refl refl)

raised_twice : Reach ending_config (new_world 2) first_raised
unfolding enter_handler wanted should_handle
raised_twice =
    next first_raised first_raised raised
      (raises_again first_raised 0 0xC0000005 violation refl refl)

abbrev first_reported : World
unfolding leave_handler
first_reported = leave_handler ending_config 0 0xC0000005 true first_raised

abbrev second_raised : World
unfolding leave_handler
second_raised = record first_reported {
  handler_in_progress = 1;
  threads = ending ∷ writing 0xC0000005 ∷ [];
}

-- The flag is free before the process ends: the other thread begins a report, which is cut off.
cut_off :
    (v : World) × Reach ending_config (new_world 2) v
    × (v.alive ≡ false)
    × (get_elem? v.threads 1 ≡ some (writing 0xC0000005))
unfolding enter_handler wanted should_handle leave_handler terminate_process first_reported
    second_raised
cut_off = (
  terminate_process second_raised,
  next second_raised (terminate_process second_raised)
      (next first_reported second_raised
        (next first_raised first_reported raised (reports first_raised 0 0xC0000005 true refl refl))
        (raises first_reported 1 violation refl refl))
      (ends second_raised 0 refl refl),
  refl,
  refl,
)

Reach-IsExclusive_example : IsExclusive first_raised
Reach-IsExclusive_example = Reach-IsExclusive ending_config 2 first_raised raised_twice

flag_freed_example :
    (first_raised.handler_in_progress ≡ 0)
    ⊎ ((t : ℕ) × (code : ℕ) × (get_elem? first_raised.threads t ≡ some (writing code))
        × Frees ending_config first_raised t true
            (leave_handler ending_config t code true first_raised)
        × Frees ending_config first_raised t false
            (leave_handler ending_config t code false first_raised))
flag_freed_example = flag_freed ending_config 2 first_raised raised_twice refl
