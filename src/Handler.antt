-- ===== src/Handler.antt =====
-- src/handler/SehHandler.cpp: which exceptions are reported, and the flag that lets one thread report at a
-- time. A step is the part of `Handler` between two actions on the flag; the report itself is an argument,
-- as is the debugger that may be attached.
pub mod Exclusive
pub mod Examples
use redscope.Base.{
  ℕ, ◌-◌, ◌≡◌, Bool, true, false, ◌&&◌, ◌||◌, Option, none, some, List, [], ◌∷◌, ◌++◌, ◌==◌,
  if◌then◌else◌, ◌>>=◌, get_elem?, set, replicate,
}

abbrev handled_codes : List ℕ
handled_codes =
    0xC0000005 ∷ 0xC0000006 ∷ 0x80000002 ∷ 0xC000001D ∷ 0xC0000096 ∷ 0xC00000FD ∷ 0xC0000094
    ∷ 0xC0000095 ∷ 0xC000008C ∷ 0xC000008E ∷ 0xC0000090 ∷ 0xC0000091 ∷ 0xC0000093 ∷ 0xC000008D
    ∷ 0xC0000092 ∷ 0xC0000374 ∷ 0xC0000409 ∷ 0xC0000420 ∷ 0xC0000025 ∷ 0xC0000026 ∷ 0x887A0005
    ∷ 0x887A0006 ∷ 0x887A0007 ∷ []

abbrev is_in : ℕ → List ℕ → Bool
is_in c [] = false
is_in c (d ∷ ds) = c == d || is_in c ds

unfoldable pub should_handle : ℕ → Bool
should_handle code = is_in code handled_codes

abbrev pub exception_stack_overflow : ℕ
exception_stack_overflow = 0xC00000FD

-- `g_respectDebugger` and `g_terminateAfterReport`.
pub record HandlerConfig : Type 0 where
  pub respect_debugger : Bool
  pub terminate_after_report : Bool

-- What `Handler` is called with; `code` is none where there is no record.
pub record ExceptionEvent : Type 0 where
  pub debugger_present : Bool
  pub code : Option ℕ

-- What a thread is doing: writing the report of an exception, or, with the report behind it, ending the
-- process.
pub data Phase : Type 0 where
  running : Phase
  writing : ℕ → Phase
  ending : Phase

-- A report that was written, by its thread and by whether its body ran to the end.
pub record WrittenReport : Type 0 where
  pub thread : ℕ
  pub completed : Bool

pub record World : Type 0 where
  pub handler_in_progress : ℕ
  pub threads : List Phase
  pub written : List WrittenReport
  pub alive : Bool

-- The three tests before the flag, with the code that is to be reported.
unfoldable pub wanted : HandlerConfig → ExceptionEvent → Option ℕ
unfolding should_handle
wanted cfg e =
    if cfg.respect_debugger && e.debugger_present
    then none
    else (do code ← e.code; if should_handle code then some code else none)

-- `compare_exchange_strong(0, 1)`; where it fails, or nothing is wanted, the search goes on.
abbrev pub claim : ℕ → Option ℕ → World → World
claim t none w = w
claim t (some code) w =
    if w.handler_in_progress == 0
    then record w { handler_in_progress = 1; threads = set w.threads t (writing code) }
    else w

unfoldable pub enter_handler : HandlerConfig → ℕ → ExceptionEvent → World → World
unfolding wanted
enter_handler cfg t e w = claim t (wanted cfg e) w

-- A stack overflow ends the process, and so does every report if the settings want it.
abbrev pub phase_after : HandlerConfig → ℕ → Phase
phase_after cfg code =
    if code == exception_stack_overflow || cfg.terminate_after_report then ending else running

-- The report and `fetch_sub`.
unfoldable pub leave_handler : HandlerConfig → ℕ → ℕ → Bool → World → World
leave_handler cfg t code completed w = record w {
  handler_in_progress = w.handler_in_progress - 1;
  threads = set w.threads t (phase_after cfg code);
  written = w.written ++ (record { thread = t; completed = completed } ∷ []);
}

unfoldable pub terminate_process : World → World
terminate_process w = record w { alive = false }

-- An exception in a thread that writes its report finds the flag taken.
pub data Step (cfg : HandlerConfig) : World → World → Type 0 where
  raises :
      (w : World) (t : ℕ) (e : ExceptionEvent)
      → w.alive ≡ true
      → get_elem? w.threads t ≡ some running
      → Step cfg w (enter_handler cfg t e w)
  raises_again :
      (w : World) (t code : ℕ) (e : ExceptionEvent)
      → w.alive ≡ true
      → get_elem? w.threads t ≡ some (writing code)
      → Step cfg w (enter_handler cfg t e w)
  reports :
      (w : World) (t code : ℕ) (completed : Bool)
      → w.alive ≡ true
      → get_elem? w.threads t ≡ some (writing code)
      → Step cfg w (leave_handler cfg t code completed w)
  ends :
      (w : World) (t : ℕ)
      → w.alive ≡ true
      → get_elem? w.threads t ≡ some ending
      → Step cfg w (terminate_process w)

pub data Reach (cfg : HandlerConfig) (start : World) : World → Type 0 where
  here : Reach cfg start start
  next : (u v : World) → Reach cfg start u → Step cfg u v → Reach cfg start v

-- A process of `n` threads in which nothing has gone wrong.
abbrev pub new_world : ℕ → World
new_world n = record {
  handler_in_progress = 0;
  threads = replicate n running;
  written = [];
  alive = true;
}
