-- ===== src/LogTailer/Lines/Window.antt =====
-- src/logs/LogTailer.cpp, `WindowAround`: a line is kept by the last time stamp at or before it.
use redscope.Base.{
  ℕ, ◌-◌, ◌≡◌, refl, sym, ap, ◌∙◌, inl, inr, Bool, true, false, not, ◌&&◌, ◌||◌, Option, none, some,
  List, [], ◌∷◌, arith, ltb, ◌==◌, if◌then◌else◌, ==_iff, tests, Bool-cases, Option-cases, Bytes,
  length,
}
use redscope.Base.Int.{ℤ, pos, ◌+ℤ◌, ◌-ℤ◌, ltb_ℤ}
use redscope.LogTailer.Lines.{split_lines, keep, window_around, last_of}
use redscope.LogTailer.Lines.LastLines.{drop_all, last_of_all}

module _ (stamp : Bytes → Option ℤ) where
  -- The lines, each with the last time stamp at or before it.
  abbrev pub dated : Option ℤ → List Bytes → List (Bytes × Option ℤ)
  dated before [] = []
  dated before (ln ∷ lines) = elim (stamp ln) [
    | some t ↦ (ln, some t) ∷ dated (some t) lines
    | none ↦ (ln, before) ∷ dated before lines
  ]

abbrev pub is_within : ℤ → ℤ → Option ℤ → Bool
is_within lo hi none = false
is_within lo hi (some t) = not (ltb_ℤ t lo) && not (ltb_ℤ hi t)

-- The lines whose stamp lies in the window.
abbrev pub in_window : ℤ → ℤ → List (Bytes × Option ℤ) → List Bytes
in_window lo hi [] = []
in_window lo hi ((ln, t) ∷ lines) =
    let rest = in_window lo hi lines in if is_within lo hi t then ln ∷ rest else rest

keeps :
    {a b : Bool} {xs ys : List Bytes} (ln : Bytes)
    → a ≡ b
    → xs ≡ ys
    → (if a then ln ∷ xs else xs) ≡ (if b then ln ∷ ys else ys)
keeps ln e f = rw (e, f) refl

keep-dated :
    (stamp : Bytes → Option ℤ) (lo hi : ℤ) (before : Option ℤ) (within seen : Bool)
    (lines : List Bytes)
    → (seen && within) ≡ is_within lo hi before
    → keep stamp lo hi within seen lines ≡ in_window lo hi (dated stamp before lines)
unfolding keep
keep-dated stamp lo hi before within seen [] e = refl
keep-dated stamp lo hi before within seen (ln ∷ lines) e = elim (Option-cases (stamp ln)) [
  | inl n ↦ rw (n, keep, dated) (keeps ln e (keep-dated stamp lo hi before within seen lines e))
  | inr (t, n) ↦
      rw (n, keep, dated)
        (keeps ln refl (keep-dated stamp lo hi (some t) (is_within lo hi (some t)) true lines refl))
]

-- `WindowAround` gives the lines whose last time stamp, at or before them, lies in the window around
-- the crash, the last `max_lines` of them where there are more; lines before the first time stamp are
-- not kept. A negative window gives none.
pub window_around-dated :
    (stamp : Bytes → Option ℤ) (text : Bytes) (crash_time window_sec : ℤ) (max_lines : ℕ)
    → window_around stamp (some text) crash_time window_sec max_lines ≡ (
        if ltb_ℤ window_sec (pos 0)
        then []
        else last_of max_lines (
            in_window
              (crash_time -ℤ window_sec)
              (crash_time +ℤ window_sec)
              (dated stamp none (split_lines text))))
unfolding window_around
window_around-dated stamp text crash_time window_sec max_lines =
    cut (ltb_ℤ window_sec (pos 0))
      (keep stamp (crash_time -ℤ window_sec) (crash_time +ℤ window_sec) false false
        (split_lines text))
      max_lines
    ∙ ap (λ l. if ltb_ℤ window_sec (pos 0) then [] else last_of max_lines l)
        (keep-dated stamp (crash_time -ℤ window_sec) (crash_time +ℤ window_sec) none false false
          (split_lines text) refl)
  where
    cut :
        (b : Bool) (kept : List Bytes) (n : ℕ)
        → (if n == 0 || b then [] else if ltb n (length kept) then last_of n kept else kept)
          ≡ (if b then [] else last_of n kept)
    cut true kept n = ground arith
    cut false kept n = elim (Bool-cases (n == 0)) [
      | inl none_ ↦
          let zero_ : n ≡ 0 = (==_iff n 0).0 none_ in
          rw none_ (sym (drop_all kept (length kept - n) (omega arith)))
      | inr many ↦ rw many (elim (Bool-cases (ltb n (length kept))) [
        | inl more ↦ rw more refl
        | inr few ↦ rw few (sym (last_of_all n kept (omega (tests, few))))
      ])
    ]
