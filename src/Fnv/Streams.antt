-- ===== src/Fnv/Streams.antt =====
-- The hash of a text in pieces is the hash of the whole, and stays within 64 bits.
use Prim.Native.Nat.{bit_xor}
use redscope.Base.{ℕ, ◌*◌, ◌%◌, ◌^◌, ◌<◌, ◌≡◌, refl, none, some, [], ◌∷◌, ◌++◌, arith, Bytes, CStr}
use redscope.Fnv.{fnv_prime, fnv_bytes, fnv_str}

pub fnv_bytes-append : (h : ℕ) (a b : Bytes) → fnv_bytes h (a ++ b) ≡ fnv_bytes (fnv_bytes h a) b
unfolding fnv_bytes
fnv_bytes-append h [] b = refl
fnv_bytes-append h (x ∷ a) b = fnv_bytes-append (bit_xor h x * fnv_prime % 2 ^ 64) a b

pub fnv_bytes-lt : (h : ℕ) (s : Bytes) → h < 2 ^ 64 → fnv_bytes h s < 2 ^ 64
unfolding fnv_bytes
fnv_bytes-lt h [] b = b
fnv_bytes-lt h (x ∷ s) b = fnv_bytes-lt (bit_xor h x * fnv_prime % 2 ^ 64) s (omega arith)

-- A null text adds nothing.
abbrev pub text_of : CStr → Bytes
text_of none = []
text_of (some s) = s

pub fnv_str-bytes : (h : ℕ) (s : CStr) → fnv_str h s ≡ fnv_bytes h (text_of s)
unfolding fnv_str fnv_bytes
fnv_str-bytes h none = refl
fnv_str-bytes h (some s) = refl
