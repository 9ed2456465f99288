-- ===== src/Text/Copy.antt =====
-- src/util/FixedStr.h and `LowerToAscii`: what is copied fits, its NUL included.
use redscope.Base.{
  ℕ, ◌-◌, ◌<◌, ◌≡◌, some, ◌++◌, arith, Bytes, length, take, drop, take-append-drop, length-take,
  take_all,
}
use redscope.Text.{copy_fixed}

length-take_lt : (cap : ℕ) (s : Bytes) → 0 < cap → length (take (cap - 1) s) < cap
length-take_lt cap s h = omega (arith, length-take (cap - 1) s)

-- A copy with its NUL fits into the destination, and a text that fits is copied whole.
copy_fixed_fits :
    (cap : ℕ) (s : Bytes)
    → 0 < cap
    → (d : Bytes) × (copy_fixed cap (some s) ≡ some d)
      × (length d < cap)
      × (d ++ drop (cap - 1) s ≡ s)
      × (length s < cap → d ≡ s)
unfolding copy_fixed
copy_fixed_fits cap s h = (
  take (cap - 1) s,
  ground arith,
  length-take_lt cap s h,
  take-append-drop (cap - 1) s,
  λ l. take_all (cap - 1) s (omega arith),
)
