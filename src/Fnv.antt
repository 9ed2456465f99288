-- ===== src/Fnv.antt =====
-- src/report/Fingerprint.cpp: the 64-bit FNV-1a hash, its mixer, and the ids of eight characters.
-- src/handler/HangWatchdog.cpp has copies of `FnvStr` and `Mix64`.
pub mod Ids
pub mod Streams
pub mod Examples
use Prim.Native.Nat.{bit_xor}
use redscope.Base.{
  ℕ, zero, suc, ◌+◌, ◌-◌, ◌*◌, ◌/◌, ◌%◌, ◌^◌, Option, none, some, [], ◌∷◌, ltb, ◌==◌, if◌then◌else◌,
  Bytes, CStr, get_or, codes,
}

abbrev pub fnv_offset : ℕ
fnv_offset = 14695981039346656037

abbrev pub fnv_prime : ℕ
fnv_prime = 1099511628211

abbrev pub field_sep : ℕ
field_sep = 0x1F

-- `h ^= b; h *= kFnvPrime;` for each byte.
unfoldable pub fnv_bytes : ℕ → Bytes → ℕ
fnv_bytes h [] = h
fnv_bytes h (b ∷ bs) = fnv_bytes (bit_xor h b * fnv_prime % 2 ^ 64) bs

unfoldable pub fnv_str : ℕ → CStr → ℕ
fnv_str h none = h
fnv_str h (some s) = fnv_bytes h s

-- The bytes of a number, lowest first, as it lies in memory.
abbrev pub le_bytes : ℕ → ℕ → Bytes
le_bytes zero v = []
le_bytes (suc n) v = v % 256 ∷ le_bytes n (v / 256)

unfoldable pub fnv_u64 : ℕ → ℕ → ℕ
fnv_u64 h v = fnv_bytes h (le_bytes 8 v)

unfoldable pub fnv_sep : ℕ → ℕ
fnv_sep h = fnv_bytes h (field_sep ∷ [])

unfoldable pub mix64 : ℕ → ℕ
mix64 x =
    let x1 = bit_xor x (x / 2 ^ 30) in
    let x2 = x1 * 0xBF58476D1CE4E5B9 % 2 ^ 64 in
    let x3 = bit_xor x2 (x2 / 2 ^ 27) in
    let x4 = x3 * 0x94D049BB133111EB % 2 ^ 64 in bit_xor x4 (x4 / 2 ^ 31)

abbrev pub alphabet : Bytes
alphabet = codes "0123456789ABCDEFGHJKMNPQRSTVWXYZ"

abbrev pub id_chars : ℕ
id_chars = 8

-- `alphabet[(h >> (59 - 5 * i)) & 0x1F]`.
abbrev pub id_char : ℕ → ℕ → ℕ
id_char h i = get_or alphabet (h / 2 ^ (59 - 5 * i) % 32) 0

-- The loop of `EncodeId` from `i` on, for `n` more characters.
abbrev pub id_chars_from : ℕ → ℕ → ℕ → Bytes
id_chars_from h i zero = []
id_chars_from h i (suc n) = id_char h i ∷ id_chars_from h (i + 1) n

-- `none` leaves the destination alone.
unfoldable pub encode_id : ℕ → ℕ → Option Bytes
encode_id h cap =
    if cap == 0
    then none
    else some (id_chars_from h 0 (if ltb cap (id_chars + 1) then cap - 1 else id_chars))
