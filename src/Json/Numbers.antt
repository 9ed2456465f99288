-- ===== src/Json/Numbers.antt =====
-- What is printed of a number is a number of JSON, with no zero before it.
use redscope.Base.{
  ℕ, zero, suc, ◌+◌, ◌/◌, ◌%◌, ◌^◌, ◌<◌, ◌≡◌, refl, ap, ◌∙◌, inl, inr, Bool, true, false, List, [],
  ◌∷◌, ◌++◌, arith, ltb, ◌==◌, tests, Bool-cases, Bytes,
}
use redscope.Base.Int.{ℤ, pos, negsuc}
use redscope.Format.{digit, digits_onto, decimal}
use redscope.Json.{print_u, print_llu, print_lld, json_bool}
use redscope.Json.Accept.{
  Context, value, minus, zero_digit, digits, after, is_white, is_digit, run, Runs,
}

run-digit :
    (d : ℕ) (rest : Bytes) (stack : List Context)
    → d < 10
    → run (digit d ∷ rest) (digits, stack) ≡ run rest (digits, stack)
unfolding run
run-digit d rest stack h = let e : is_digit (digit d) ≡ true = ground (arith, h) in rw e refl

-- A first digit that is no zero, where a value or the rest of a negative number may come.
run_lead :
    (d : ℕ) (rest : Bytes) (stack : List Context)
    → 0 < d
    → d < 10
    → (run (digit d ∷ rest) (value, stack) ≡ run rest (digits, stack))
      × (run (digit d ∷ rest) (minus, stack) ≡ run rest (digits, stack))
unfolding run
run_lead d rest stack p h =
    let w : is_white (digit d) ≡ false = ground (arith, h) in
    let q : (digit d == b'"') ≡ false = ground (arith, h) in
    let o : (digit d == b'{') ≡ false = ground (arith, h) in
    let a : (digit d == b'[') ≡ false = ground (arith, h) in
    let m : (digit d == b'-') ≡ false = ground (arith, h) in
    let z : (digit d == b'0') ≡ false = ground (arith, p) in
    let e : is_digit (digit d) ≡ true = ground (arith, h) in
    (rw (w, q, o, a, m, z, e) refl, rw (z, e) refl)

run-digits_onto :
    (f n : ℕ) (rest : Bytes) (stack : List Context)
    → 0 < n
    → n < 10 ^ f
    → (run (digits_onto f digit 10 n rest) (value, stack) ≡ run rest (digits, stack))
      × (run (digits_onto f digit 10 n rest) (minus, stack) ≡ run rest (digits, stack))
unfolding digits_onto
run-digits_onto zero n rest stack p h = absurd (omega arith)
run-digits_onto (suc f) n rest stack p h = elim (Bool-cases (ltb n 10)) [
  | inl e ↦ rw e (run_lead n rest stack p (omega (tests, e)))
  | inr e ↦
      let more =
        run-digits_onto f (n / 10) (digit (n % 10) ∷ rest) stack (omega (tests, e)) (omega arith) in
      let last = run-digit (n % 10) rest stack (omega arith) in rw e (more.0 ∙ last, more.1 ∙ last)
]

-- A number ends where a byte comes that is no digit.
ends_zero :
    (c : ℕ) (rest : Bytes) (stack : List Context)
    → is_digit c ≡ false
    → run (c ∷ rest) (zero_digit, stack) ≡ run (c ∷ rest) (after, stack)
unfolding run
ends_zero c rest stack h = rw h refl

ends_digits :
    (c : ℕ) (rest : Bytes) (stack : List Context)
    → is_digit c ≡ false
    → run (c ∷ rest) (digits, stack) ≡ run (c ∷ rest) (after, stack)
unfolding run
ends_digits c rest stack h = rw h refl

zero_runs :
    (c : ℕ) (rest : Bytes) (stack : List Context)
    → is_digit c ≡ false
    → run (b'0' ∷ c ∷ rest) (value, stack) ≡ run (c ∷ rest) (after, stack)
unfolding run
zero_runs c rest stack h = ends_zero c rest stack h

digits_onto-append :
    (f n : ℕ) (s t : Bytes) → digits_onto f digit 10 n s ++ t ≡ digits_onto f digit 10 n (s ++ t)
unfolding digits_onto
digits_onto-append zero n s t = refl
digits_onto-append (suc f) n s t = elim (Bool-cases (ltb n 10)) [
  | inl e ↦ rw e refl
  | inr e ↦ rw e (digits_onto-append f (n / 10) (digit (n % 10) ∷ s) t)
]

decimal_shape : (n : ℕ) (t : Bytes) → decimal n ++ t ≡ digits_onto 20 digit 10 n t
unfolding decimal
decimal_shape n t = digits_onto-append 20 n [] t

decimal_zero : decimal 0 ≡ b'0' ∷ []
unfolding decimal digits_onto
decimal_zero = refl

-- A number, and a byte behind it that is no digit.
pub run-decimal :
    (n c : ℕ) (rest : Bytes) (stack : List Context)
    → n < 10 ^ 20
    → is_digit c ≡ false
    → run (decimal n ++ (c ∷ rest)) (value, stack) ≡ run (c ∷ rest) (after, stack)
run-decimal zero c rest stack h e =
    ap (λ d. run (d ++ (c ∷ rest)) (value, stack)) decimal_zero ∙ zero_runs c rest stack e
run-decimal (suc n) c rest stack h e =
    ap (λ s. run s (value, stack)) (decimal_shape (suc n) (c ∷ rest))
    ∙ (run-digits_onto 20 (suc n) (c ∷ rest) stack (omega arith) h).0
    ∙ ends_digits c rest stack e

run-minus :
    (n c : ℕ) (rest : Bytes) (stack : List Context)
    → 0 < n
    → n < 10 ^ 20
    → is_digit c ≡ false
    → run (b'-' ∷ (decimal n ++ (c ∷ rest))) (value, stack) ≡ run (c ∷ rest) (after, stack)
unfolding run
run-minus n c rest stack p h e =
    ap (λ s. run s (minus, stack)) (decimal_shape n (c ∷ rest))
    ∙ (run-digits_onto 20 n (c ∷ rest) stack p h).1
    ∙ ends_digits c rest stack e

pub run-print_u :
    (n c : ℕ) (rest : Bytes) (stack : List Context)
    → is_digit c ≡ false
    → run (print_u n ++ (c ∷ rest)) (value, stack) ≡ run (c ∷ rest) (after, stack)
unfolding print_u
run-print_u n c rest stack e = run-decimal (n % 2 ^ 32) c rest stack (omega arith) e

pub run-print_llu :
    (n c : ℕ) (rest : Bytes) (stack : List Context)
    → is_digit c ≡ false
    → run (print_llu n ++ (c ∷ rest)) (value, stack) ≡ run (c ∷ rest) (after, stack)
unfolding print_llu
run-print_llu n c rest stack e = run-decimal (n % 2 ^ 64) c rest stack (omega arith) e

pub run-print_lld :
    (z : ℤ) (c : ℕ) (rest : Bytes) (stack : List Context)
    → is_digit c ≡ false
    → run (print_lld z ++ (c ∷ rest)) (value, stack) ≡ run (c ∷ rest) (after, stack)
unfolding print_lld
run-print_lld (pos n) c rest stack e = run-decimal (n % 2 ^ 63) c rest stack (omega arith) e
run-print_lld (negsuc n) c rest stack e =
    run-minus (n % 2 ^ 63 + 1) c rest stack (omega arith) (omega arith) e

pub json_bool-Runs :
    (b : Bool) (stack : List Context) → Runs (json_bool b) (value, stack) (after, stack)
unfolding run
json_bool-Runs true stack = refl
json_bool-Runs false stack = refl
