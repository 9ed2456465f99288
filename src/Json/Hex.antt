-- ===== src/Json/Hex.antt =====
-- A hexadecimal number inside a text.
use redscope.Base.{
  ℕ, zero, suc, ◌-◌, ◌/◌, ◌%◌, ◌<◌, ◌≡◌, refl, ap, ◌∙◌, inl, inr, Bool, false, List, [], ◌∷◌, ◌++◌,
  append_assoc, arith, ltb, ◌==◌, tests, Bool-cases, Bytes, length, replicate,
}
use redscope.Format.{hex_digit, digits_onto, hex, hex8, hex16}
use redscope.Json.Accept.{Context, text, step, run}

-- A byte that the reader passes over inside a text.
abbrev pub IsPlain : ℕ → Type 0
IsPlain c = (c == b'"') ≡ false × (c == b'\\') ≡ false × ltb c 32 ≡ false

pub plain_run :
    (c : ℕ) (t : Bytes) (key : Bool) (stack : List Context)
    → IsPlain c
    → run (c ∷ t) (text key, stack) ≡ run t (text key, stack)
unfolding run step
plain_run c t key stack h = rw (h.0, h.1, h.2) refl

hex_digit-IsPlain : (d : ℕ) → d < 16 → IsPlain (hex_digit d)
hex_digit-IsPlain d h = (ground (arith, h), ground (arith, h), ground (arith, h))

digits_run :
    (f n : ℕ) (t : Bytes) (key : Bool) (stack : List Context)
    → run (digits_onto f hex_digit 16 n t) (text key, stack) ≡ run t (text key, stack)
unfolding digits_onto
digits_run zero n t key stack = refl
digits_run (suc f) n t key stack = elim (Bool-cases (ltb n 16)) [
  | inl e ↦ rw e (plain_run (hex_digit n) t key stack (hex_digit-IsPlain n (omega (tests, e))))
  | inr e ↦ rw e (
      digits_run f (n / 16) (hex_digit (n % 16) ∷ t) key stack
      ∙ plain_run (hex_digit (n % 16)) t key stack (hex_digit-IsPlain (n % 16) (omega arith)))
]

digits-append :
    (f n : ℕ) (s t : Bytes)
    → digits_onto f hex_digit 16 n s ++ t ≡ digits_onto f hex_digit 16 n (s ++ t)
unfolding digits_onto
digits-append zero n s t = refl
digits-append (suc f) n s t = elim (Bool-cases (ltb n 16)) [
  | inl e ↦ rw e refl
  | inr e ↦ rw e (digits-append f (n / 16) (hex_digit (n % 16) ∷ s) t)
]

pub run-hex :
    (n : ℕ) (t : Bytes) (key : Bool) (stack : List Context)
    → run (hex n ++ t) (text key, stack) ≡ run t (text key, stack)
unfolding hex
run-hex n t key stack =
    ap (λ s. run s (text key, stack)) (digits-append 16 n [] t) ∙ digits_run 16 n t key stack

zeros_run :
    (k : ℕ) (t : Bytes) (key : Bool) (stack : List Context)
    → run (replicate k b'0' ++ t) (text key, stack) ≡ run t (text key, stack)
zeros_run zero t key stack = refl
zeros_run (suc k) t key stack =
    plain_run b'0' (replicate k b'0' ++ t) key stack (refl, refl, refl) ∙ zeros_run k t key stack

pub padded_run :
    (k n : ℕ) (t : Bytes) (key : Bool) (stack : List Context)
    → run ((replicate k b'0' ++ hex n) ++ t) (text key, stack) ≡ run t (text key, stack)
padded_run k n t key stack =
    ap (λ s. run s (text key, stack)) (append_assoc (replicate k b'0') (hex n) t)
    ∙ zeros_run k (hex n ++ t) key stack
    ∙ run-hex n t key stack

pub run-hex8 :
    (n : ℕ) (t : Bytes) (key : Bool) (stack : List Context)
    → run (hex8 n ++ t) (text key, stack) ≡ run t (text key, stack)
unfolding hex8
run-hex8 n t key stack = padded_run (8 - length (hex n)) n t key stack

pub run-hex16 :
    (n : ℕ) (t : Bytes) (key : Bool) (stack : List Context)
    → run (hex16 n ++ t) (text key, stack) ≡ run t (text key, stack)
unfolding hex16
run-hex16 n t key stack = padded_run (16 - length (hex n)) n t key stack
