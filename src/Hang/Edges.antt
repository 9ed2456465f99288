-- ===== src/Hang/Edges.antt =====
-- src/handler/HangWatchdog.cpp, `EvaluateHang` and `CheckForHang`: one report for each hang.
use redscope.Base.{
  ℕ, suc, ◌+◌, ◌*◌, ◌≤◌, ◌≡◌, refl, sym, ap, subst, inl, inr, Bool, true, false, not, ◌&&◌, ◌||◌,
  Option, none, some, List, [], ◌∷◌, map, arith, ◌==◌, if◌then◌else◌, Bool-cases,
}
use redscope.Base.Int.{ℤ, pos, ◌-ℤ◌, ltb_ℤ}
use redscope.Snapshot.{Snapshot}
use redscope.Hang.{
  HangVerdict, HangReport, HangInput, evaluate_hang, collect_stuck_threads, max_last, engine_state,
  act, watch, checked, check_for_hang,
}

-- What one check sees: nothing, where it is switched off or does not look at the silence, or
-- whether the silence is longer than the threshold.
abbrev pub looks_at : HangInput → Snapshot → Bool
looks_at i s =
    if not i.enabled || i.threshold_seconds == 0
    then false
    else if i.respect_debugger && i.debugger_present
    then false
    else not (ltb_ℤ (engine_state s) (pos 3))
      && not (ltb_ℤ (pos 3) (engine_state s))
      && ltb_ℤ (pos 0) (max_last (pos 0) (collect_stuck_threads i.slots))

abbrev pub is_silent : HangInput → Bool
is_silent i =
    ltb_ℤ (pos (i.threshold_seconds * 1000000000))
      (i.now -ℤ max_last (pos 0) (collect_stuck_threads i.slots))

abbrev pub observed : Option Snapshot → HangInput → Option Bool
observed none i = none
observed (some s) i = if looks_at i s then some (is_silent i) else none

abbrev pub observe : HangInput → Option Bool
observe i = observed i.snap i

abbrev pub is_some {ℓ} : {A : Type ℓ} → Option A → Bool
is_some none = false
is_some (some a) = true

-- The checks in a row: whether each writes a report.
abbrev pub run : Bool → List HangInput → List Bool
run reported [] = []
run reported (i ∷ is_) =
    let (reported', report) = check_for_hang i reported in is_some report ∷ run reported' is_

-- Where a hang begins in a row of observations, `hung` telling whether one is under way.
abbrev pub begins : Bool → List (Option Bool) → List Bool
begins hung [] = []
begins hung (none ∷ os) = false ∷ begins hung os
begins hung (some h ∷ os) = (h && not hung) ∷ begins h os

-- What the verdict does, by the three tests.
evaluate_hang-act :
    (m n e t : ℤ) (r : Bool) (rep : HangReport)
    → act (evaluate_hang m n e t r) r rep ≡ (
        if not (ltb_ℤ e (pos 3)) && not (ltb_ℤ (pos 3) e) && ltb_ℤ (pos 0) m
        then (ltb_ℤ t (n -ℤ m), if ltb_ℤ t (n -ℤ m) && not r then some rep else none)
        else (r, none))
unfolding evaluate_hang
evaluate_hang-act m n e t r rep =
    table (ltb_ℤ e (pos 3)) (ltb_ℤ (pos 3) e) (ltb_ℤ (pos 0) m) (ltb_ℤ t (n -ℤ m)) r
  where
    table :
        (below above active hung r : Bool)
        → act
            (if not (not below && not above)
              then HangVerdict.nothing
              else if not active
              then HangVerdict.nothing
              else if hung && not r
              then HangVerdict.detected
              else if not hung && r
              then HangVerdict.rearmed
              else HangVerdict.nothing)
            r
            rep
          ≡ (if not below && not above && active
              then (hung, if hung && not r then some rep else none)
              else (r, none))
    table true above active hung r = refl
    table false true active hung r = refl
    table false false false hung r = refl
    table false false true true true = refl
    table false false true true false = refl
    table false false true false true = refl
    table false false true false false = refl

-- What a check returns, by what it sees: the flag that is left, and whether there is a report.
abbrev Follows : Option Bool → Bool → Bool × Option HangReport → Type 0
Follows o r x =
    (x.0 ≡ elim o [ none ↦ r | some h ↦ h ])
    × (is_some (x.1) ≡ elim o [ none ↦ false | some h ↦ h && not r ])

table-Follows :
    (c h r : Bool) (rep : HangReport)
    → Follows
        (if c then some h else none)
        r
        (if c then (h, if h && not r then some rep else none) else (r, none))
table-Follows false h r rep = (refl, refl)
table-Follows true true true rep = (refl, refl)
table-Follows true true false rep = (refl, refl)
table-Follows true false r rep = (refl, refl)

checked-Follows :
    (snap : Option Snapshot) (i : HangInput) (r : Bool)
    → Follows (observed snap i) r (checked snap i r)
unfolding checked watch
checked-Follows none i r = (refl, refl)
checked-Follows (some s) i r = elim (Bool-cases (not i.enabled || i.threshold_seconds == 0)) [
  | inl off ↦ rw off (refl, refl)
  | inr on ↦ rw on (elim (Bool-cases (i.respect_debugger && i.debugger_present)) [
    | inl d ↦ rw d (refl, refl)
    | inr d ↦ rw d (
        subst (Follows _ r)
          (sym (
            evaluate_hang-act (max_last (pos 0) (collect_stuck_threads i.slots)) i.now
              (engine_state s) (pos (i.threshold_seconds * 1000000000)) r _))
          (table-Follows _ _ r _))
  ])
]

step-begins :
    (o : Option Bool) (r : Bool) (x : Bool × Option HangReport) (is_ : List HangInput)
    (os : List (Option Bool))
    → Follows o r x
    → ((b : Bool) → run b is_ ≡ begins b os)
    → is_some (x.1) ∷ run x.0 is_ ≡ begins r (o ∷ os)
step-begins none r x is_ os f on = rw (f.0, f.1) (ap (◌∷◌ false) (on r))
step-begins (some h) r x is_ os f on = rw (f.0, f.1) (ap (◌∷◌ (h && not r)) (on h))

-- In a row of checks a report is written exactly where a hang begins: where the watchdog sees a
-- silence longer than the threshold, and the last time that it looked it saw none. Checks that do
-- not look change nothing.
pub run-begins :
    (is_ : List HangInput) (reported : Bool) → run reported is_ ≡ begins reported (map observe is_)
unfolding check_for_hang
run-begins [] r = refl
run-begins (i ∷ is_) r =
    step-begins (observe i) r (check_for_hang i r) is_ (map observe is_)
      (checked-Follows i.snap i r) (run-begins is_)

abbrev pub count_true : List Bool → ℕ
count_true [] = 0
count_true (true ∷ bs) = suc (count_true bs)
count_true (false ∷ bs) = count_true bs

-- How often the watchdog looked and saw no hang.
abbrev pub count_calm : List (Option Bool) → ℕ
count_calm [] = 0
count_calm (some false ∷ os) = suc (count_calm os)
count_calm (some true ∷ os) = count_calm os
count_calm (none ∷ os) = count_calm os

begins_rare :
    (os : List (Option Bool))
    → (count_true (begins false os) ≤ count_calm os + 1)
      × (count_true (begins true os) ≤ count_calm os)
begins_rare [] = (omega arith, omega arith)
begins_rare (none ∷ os) = begins_rare os
begins_rare (some true ∷ os) = let h = begins_rare os in (omega (arith, h.1), h.1)
begins_rare (some false ∷ os) = let h = begins_rare os in (omega (arith, h.0), omega (arith, h.0))

-- From the start, the reports are at most one more than the checks that saw the game run: without
-- such a check between them, no two reports are written.
run_rare : (is_ : List HangInput) → count_true (run false is_) ≤ count_calm (map observe is_) + 1
run_rare is_ = rw (run-begins is_ false) (begins_rare (map observe is_)).0
