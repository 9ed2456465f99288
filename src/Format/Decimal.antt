-- ===== src/Format/Decimal.antt =====
-- `strtoll` reads what is printed of a number.
use redscope.Base.{
  ℕ, zero, suc, ◌+◌, ◌-◌, ◌*◌, ◌/◌, ◌%◌, ◌^◌, ◌≤◌, ◌<◌, ◌≡◌, refl, ap, ◌∙◌, inl, inr, true, false,
  ◌&&◌, [], ◌∷◌, arith, ltb, leb, ◌==◌, if◌then◌else◌, tests, Bool-cases, Bytes, FreeOf,
}
use redscope.Base.Int.{ℤ, pos, negsuc}
use redscope.Format.{
  digit, digits_onto, decimal, decimal_ℤ, is_space, read_digits, negate, read_signed, skip_spaces,
  strtoll,
}

read_digit :
    (acc n : ℕ) (s : Bytes) → n < 10 → read_digits acc (digit n ∷ s) ≡ read_digits (acc * 10 + n) s
unfolding read_digits
read_digit acc n s h =
    let d : (leb b'0' (digit n) && leb (digit n) b'9') ≡ true = ground arith in
    let v : digit n - b'0' ≡ n = omega arith in rw (d, v) refl

read-digits :
    (f n : ℕ) (rest : Bytes)
    → n < 10 ^ f
    → read_digits 0 (digits_onto f digit 10 n rest) ≡ read_digits n rest
unfolding digits_onto
read-digits zero n rest h = let z : n ≡ 0 = omega arith in rw z refl
read-digits (suc f) n rest h = elim (Bool-cases (ltb n 10)) [
  | inl e ↦
      rw e (read_digit 0 n rest (omega (tests, e)) ∙ ap (λ m. read_digits m rest) (omega arith))
  | inr e ↦ rw e (
      read-digits f (n / 10) (digit (n % 10) ∷ rest) (omega arith)
      ∙ read_digit (n / 10) (n % 10) rest (omega arith)
      ∙ ap (λ m. read_digits m rest) (omega arith))
]

read_none : (n : ℕ) → read_digits n [] ≡ n
unfolding read_digits
read_none n = refl

-- A text that begins with a digit.
abbrev Leads : Bytes → Type 0
Leads [] = ⊥
Leads (c ∷ s) = (b'0' ≤ c) × (c ≤ b'9')

digits_onto-Leads :
    (f n : ℕ) (rest : Bytes) → n < 10 ^ (suc f) → Leads (digits_onto (suc f) digit 10 n rest)
unfolding digits_onto
digits_onto-Leads zero n rest h =
    let e : ltb n 10 ≡ true = omega (tests, h) in rw e (omega arith, omega (arith, h))
digits_onto-Leads (suc f) n rest h = elim (Bool-cases (ltb n 10)) [
  | inl e ↦ rw e (omega arith, omega (tests, e))
  | inr e ↦ rw e (digits_onto-Leads f (n / 10) (digit (n % 10) ∷ rest) (omega arith))
]

read-Leads :
    (s : Bytes)
    → Leads s
    → strtoll s ≡ pos (let n = read_digits 0 s in if leb n (2 ^ 63 - 1) then n else 2 ^ 63 - 1)
unfolding strtoll skip_spaces read_signed
read-Leads [] h = absurd h
read-Leads (c ∷ s) h =
    let visible : is_space c ≡ false = ground (arith, h) in
    let plain : (c == b'-') ≡ false = ground (arith, h) in
    let unsigned : (c == b'+') ≡ false = ground (arith, h) in rw (visible, plain, unsigned) refl

digits_onto-FreeOf :
    (b f n : ℕ) (rest : Bytes) → b < b'0' → FreeOf b rest → FreeOf b (digits_onto f digit 10 n rest)
unfolding digits_onto
digits_onto-FreeOf b zero n rest h k = k
digits_onto-FreeOf b (suc f) n rest h k = elim (Bool-cases (ltb n 10)) [
  | inl e ↦ rw e (ground (arith, h), k)
  | inr e ↦ rw e (digits_onto-FreeOf b f (n / 10) (digit (n % 10) ∷ rest) h (ground (arith, h), k))
]

-- The numbers of 64 bits with a sign.
abbrev pub IsInt64 : ℤ → Type 0
IsInt64 (pos n) = n < 2 ^ 63
IsInt64 (negsuc n) = n < 2 ^ 63

pub decimal-FreeOf : (b : ℕ) (z : ℤ) → b < b'-' → FreeOf b (decimal_ℤ z)
unfolding decimal_ℤ decimal
decimal-FreeOf b (pos n) h = digits_onto-FreeOf b 20 n [] (omega arith) tt
decimal-FreeOf b (negsuc n) h =
    (ground (arith, h), digits_onto-FreeOf b 20 (suc n) [] (omega arith) tt)

read-decimal : (n : ℕ) → n ≤ 2 ^ 63 → read_digits 0 (decimal n) ≡ n
unfolding decimal
read-decimal n h = read-digits 20 n [] (omega arith) ∙ read_none n

decimal-Leads : (n : ℕ) → n ≤ 2 ^ 63 → Leads (decimal n)
unfolding decimal
decimal-Leads n h = digits_onto-Leads 19 n [] (omega arith)

strtoll-digits :
    (s : Bytes) (n : ℕ) → Leads s → read_digits 0 s ≡ n → n < 2 ^ 63 → strtoll s ≡ pos n
strtoll-digits s n l r h =
    let small : leb n (2 ^ 63 - 1) ≡ true = omega (tests, h) in read-Leads s l ∙ rw (r, small) refl

strtoll-minus :
    (s : Bytes) (n : ℕ) → read_digits 0 s ≡ suc n → n < 2 ^ 63 → strtoll (b'-' ∷ s) ≡ negsuc n
unfolding strtoll skip_spaces read_signed negate
strtoll-minus s n r h =
    let small : leb (suc n) (2 ^ 63) ≡ true = omega (tests, h) in rw (r, small) refl

-- Reading what was printed of a number of 64 bits gives the number.
pub strtoll-decimal : (z : ℤ) → IsInt64 z → strtoll (decimal_ℤ z) ≡ z
unfolding decimal_ℤ
strtoll-decimal (pos n) h =
    strtoll-digits (decimal n) n (decimal-Leads n (omega arith)) (read-decimal n (omega arith)) h
strtoll-decimal (negsuc n) h =
    strtoll-minus (decimal (suc n)) n (read-decimal (suc n) (omega arith)) h
