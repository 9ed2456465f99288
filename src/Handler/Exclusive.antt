-- ===== src/Handler/Exclusive.antt =====
-- src/handler/SehHandler.cpp: at most one thread reports, and the flag is given back.
use redscope.Base.{
  ℕ, zero, suc, ◌+◌, ◌≤◌, ◌<◌, ◌≡◌, refl, sym, ap, subst, ◌⊎◌, inl, inr, Bool, true, false, ◌||◌,
  Option, none, some, List, [], ◌∷◌, ◌++◌, arith, ltb, ◌==◌, ==_iff, tests, Bool-cases, get_elem?,
  set, replicate,
}
use redscope.Handler.{
  exception_stack_overflow, HandlerConfig, Phase, running, writing, ending, World, wanted, claim,
  enter_handler, phase_after, leave_handler, terminate_process, Step, raises, raises_again, reports,
  ends, Reach, here, next, new_world,
}

abbrev weight : Phase → ℕ
weight running = 0
weight (writing code) = 1
weight ending = 0

-- The number of threads that write a report.
unfoldable pub writers : List Phase → ℕ
writers [] = 0
writers (p ∷ ps) = weight p + writers ps

writers-set :
    (ps : List Phase) (t : ℕ) (old new : Phase)
    → get_elem? ps t ≡ some old
    → writers (set ps t new) + weight old ≡ writers ps + weight new
unfolding writers
writers-set [] t old new h = absurd (cc)
writers-set (p ∷ ps) zero old new h = omega (arith, ap weight (same p h))
  where
    same : (p : Phase) → get_elem? (p ∷ ps) zero ≡ some old → p ≡ old
    same p e = cc
writers-set (p ∷ ps) (suc t) old new h = omega (arith, writers-set ps t old new h)

writers-replicate : (n : ℕ) → writers (replicate n running) ≡ 0
unfolding writers
writers-replicate zero = refl
writers-replicate (suc n) = omega (arith, writers-replicate n)

-- The flag is the number of threads that write, and at most one does.
pub record IsExclusive (w : World) : Type 0 where
  pub counted : w.handler_in_progress ≡ writers w.threads
  pub single : writers w.threads ≤ 1

claim-IsExclusive :
    (t : ℕ) (o : Option ℕ) (w : World)
    → get_elem? w.threads t ≡ some running
    → IsExclusive w
    → IsExclusive (claim t o w)
claim-IsExclusive t none w h i = i
claim-IsExclusive t (some code) w h i = elim (Bool-cases (w.handler_in_progress == 0)) [
  | inl e ↦
      let c = writers-set w.threads t running (writing code) h in
      let free = (==_iff w.handler_in_progress 0).0 e in
      rw e (record {
        counted = omega (arith, free, c, i.counted);
        single = omega (arith, free, c, i.counted);
      })
  | inr e ↦ rw e i
]

-- While a thread writes, the flag is taken and an exception changes nothing.
claim_taken : (t : ℕ) (o : Option ℕ) (w : World) → 0 < w.handler_in_progress → claim t o w ≡ w
claim_taken t none w h = refl
claim_taken t (some code) w h =
    let e : (w.handler_in_progress == 0) ≡ false = ground (arith, h) in rw e refl

writer-counts :
    (ps : List Phase) (t code : ℕ) → get_elem? ps t ≡ some (writing code) → 0 < writers ps
writer-counts ps t code h = omega (arith, writers-set ps t (writing code) running h)

weight-phase_after : (cfg : HandlerConfig) (code : ℕ) → weight (phase_after cfg code) ≡ 0
weight-phase_after cfg code =
    elim (Bool-cases (code == exception_stack_overflow || cfg.terminate_after_report)) [
      | inl e ↦ rw e refl
      | inr e ↦ rw e refl
    ]

leave-IsExclusive :
    (cfg : HandlerConfig) (t code : ℕ) (completed : Bool) (w : World)
    → get_elem? w.threads t ≡ some (writing code)
    → IsExclusive w
    → IsExclusive (leave_handler cfg t code completed w)
unfolding leave_handler
leave-IsExclusive cfg t code completed w h i =
    let c = writers-set w.threads t (writing code) (phase_after cfg code) h in
    let z = weight-phase_after cfg code in
    record { counted = omega (arith, c, z, i.counted); single = omega (arith, c, z, i.single) }

Step-IsExclusive :
    (cfg : HandlerConfig) (w v : World) → Step cfg w v → IsExclusive w → IsExclusive v
unfolding enter_handler terminate_process
Step-IsExclusive cfg _ _ (raises w t e a h) i = claim-IsExclusive t (wanted cfg e) w h i
Step-IsExclusive cfg _ _ (raises_again w t code e a h) i =
    let taken : 0 < w.handler_in_progress =
      omega (arith, i.counted, writer-counts w.threads t code h) in
    subst IsExclusive (sym (claim_taken t (wanted cfg e) w taken)) i
Step-IsExclusive cfg _ _ (reports w t code completed a h) i =
    leave-IsExclusive cfg t code completed w h i
Step-IsExclusive cfg _ _ (ends w t a h) i = record { counted = i.counted; single = i.single }

-- Whatever exceptions the threads of a process meet, in whatever order: at most one thread writes a
-- report, and the flag is 1 while it does and 0 otherwise.
pub Reach-IsExclusive :
    (cfg : HandlerConfig) (n : ℕ) (w : World) → Reach cfg (new_world n) w → IsExclusive w
Reach-IsExclusive cfg n w here = record {
  counted = sym (writers-replicate n);
  single = omega (arith, writers-replicate n);
}
Reach-IsExclusive cfg n w (next u v r s) = Step-IsExclusive cfg u w s (Reach-IsExclusive cfg n u r)

some_writer :
    (ps : List Phase)
    → 0 < writers ps
    → (t : ℕ) × (code : ℕ) × (get_elem? ps t ≡ some (writing code))
unfolding writers
some_writer [] h = absurd (omega arith)
some_writer (running ∷ ps) h = let r = some_writer ps (omega (arith, h)) in (suc r.0, r.1, r.2)
some_writer (writing code ∷ ps) h = (0, code, refl)
some_writer (ending ∷ ps) h = let r = some_writer ps (omega (arith, h)) in (suc r.0, r.1, r.2)

-- A report of thread `t`, which leads to `v`: the flag is free, no thread writes, and the process runs on
-- with one report more, marked by whether it ran to the end.
pub record Frees (cfg : HandlerConfig) (w : World) (t : ℕ) (completed : Bool) (v : World)
    : Type 0 where
  pub possible : Step cfg w v
  pub free : v.handler_in_progress ≡ 0
  pub nobody : writers v.threads ≡ 0
  pub runs : v.alive ≡ true
  pub kept : v.written ≡ w.written ++ (record { thread = t; completed = completed } ∷ [])

leave-Frees :
    (cfg : HandlerConfig) (w : World) (t code : ℕ) (completed : Bool)
    → IsExclusive w
    → w.alive ≡ true
    → get_elem? w.threads t ≡ some (writing code)
    → Frees cfg w t completed (leave_handler cfg t code completed w)
unfolding leave_handler
leave-Frees cfg w t code completed i a h =
    let c = writers-set w.threads t (writing code) (phase_after cfg code) h in
    let z = weight-phase_after cfg code in
    record {
      possible = reports w t code completed a h;
      free = omega (arith, i.counted, i.single);
      nobody = omega (arith, c, z, i.single);
      runs = a;
      kept = refl;
    }

-- The flag is always given back: wherever the process has come to, as long as it runs, the flag is free,
-- or there is a thread that writes a report, and the end of this report frees the flag, both when the
-- report runs to its end and when it fails; no thread writes then, and the report is kept with how it
-- ended.
pub flag_freed :
    (cfg : HandlerConfig) (n : ℕ) (w : World)
    → Reach cfg (new_world n) w
    → w.alive ≡ true
    → (w.handler_in_progress ≡ 0)
      ⊎ ((t : ℕ) × (code : ℕ) × (get_elem? w.threads t ≡ some (writing code))
          × Frees cfg w t true (leave_handler cfg t code true w)
          × Frees cfg w t false (leave_handler cfg t code false w))
flag_freed cfg n w r a =
    let i = Reach-IsExclusive cfg n w r in
    elim (Bool-cases (ltb 0 (writers w.threads))) [
      | inl e ↦
          let f = some_writer w.threads (omega (tests, e)) in
          inr (
            f.0,
            f.1,
            f.2,
            leave-Frees cfg w f.0 f.1 true i a f.2,
            leave-Frees cfg w f.0 f.1 false i a f.2,
          )
      | inr e ↦ inl (omega (tests, e, i.counted))
    ]
