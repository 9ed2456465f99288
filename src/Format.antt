-- ===== src/Format.antt =====
-- What `printf` prints: decimal and hexadecimal digits, and what `snprintf` keeps of a text.
pub mod Decimal
use redscope.Base.Int.{ℤ, pos, negsuc}
use redscope.Base.{
  ℕ, zero, suc, ◌+◌, ◌-◌, ◌*◌, ◌/◌, ◌%◌, ◌^◌, Bool, ◌&&◌, ◌||◌, [], ◌∷◌, ◌++◌, ltb, leb, ◌==◌,
  if◌then◌else◌, Bytes, length, take, replicate,
}

abbrev pub hex_digit : ℕ → ℕ
hex_digit d = if ltb d 10 then b'0' + d else b'A' + (d - 10)

abbrev pub digit : ℕ → ℕ
digit d = b'0' + d

-- The digits of a number, by repeated division; the fuel is a bound on their count.
unfoldable pub digits_onto : ℕ → (ℕ → ℕ) → ℕ → ℕ → Bytes → Bytes
digits_onto zero show base n rest = rest
digits_onto (suc f) show base n rest =
    let more = digits_onto f show base (n / base) (show (n % base) ∷ rest) in
    if ltb n base then show n ∷ rest else more

-- `%llX`: a number of 64 bits has at most 16 hexadecimal digits.
unfoldable pub hex : ℕ → Bytes
unfolding digits_onto
hex n = digits_onto 16 hex_digit 16 n []

-- `%llu`: and at most 20 decimal digits.
unfoldable pub decimal : ℕ → Bytes
unfolding digits_onto
decimal n = digits_onto 20 digit 10 n []

-- `%08lX`: eight digits, with zeros before the number.
unfoldable pub hex8 : ℕ → Bytes
hex8 n = let s = hex n in replicate (8 - length s) b'0' ++ s

-- `%016llX`.
unfoldable pub hex16 : ℕ → Bytes
hex16 n = let s = hex n in replicate (16 - length s) b'0' ++ s

-- What `snprintf` leaves of a text in `cap` bytes.
abbrev pub printed : ℕ → Bytes → Bytes
printed cap s = take (cap - 1) s

-- `operator<<` of a signed number of 64 bits.
unfoldable pub decimal_ℤ : ℤ → Bytes
decimal_ℤ (pos n) = decimal n
decimal_ℤ (negsuc n) = b'-' ∷ decimal (suc n)

abbrev is_digit : ℕ → Bool
is_digit c = leb b'0' c && leb c b'9'

abbrev is_space : ℕ → Bool
is_space c = c == 32 || (leb 9 c && leb c 13)

-- The number that the digits at the front of a text make, after `acc`.
read_digits : ℕ → Bytes → ℕ
read_digits acc [] = acc
read_digits acc (c ∷ s) =
    let more = read_digits (acc * 10 + (c - b'0')) s in if is_digit c then more else acc

negate : ℕ → ℤ
negate zero = pos 0
negate (suc n) = negsuc n

abbrev at_most : ℕ → ℕ → ℕ
at_most limit n = if leb n limit then n else limit

read_signed : Bytes → ℤ
unfolding read_digits negate
read_signed [] = pos 0
read_signed (c ∷ s) =
    if c == b'-'
    then negate (at_most (2 ^ 63) (read_digits 0 s))
    else if c == b'+'
    then pos (at_most (2 ^ 63 - 1) (read_digits 0 s))
    else pos (at_most (2 ^ 63 - 1) (read_digits 0 (c ∷ s)))

skip_spaces : Bytes → Bytes
skip_spaces [] = []
skip_spaces (c ∷ s) = let more = skip_spaces s in if is_space c then more else c ∷ s

-- `strtoll(s, nullptr, 10)`.
unfoldable pub strtoll : Bytes → ℤ
unfolding skip_spaces read_signed
strtoll s = read_signed (skip_spaces s)
