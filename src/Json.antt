-- ===== src/Json.antt =====
-- The JSON that src writes by hand: the texts and numbers of src/report/JsonSidecar.cpp, whose
-- `AppendJsonStringN` is also `JsonEsc` of cleanslate/Util.h. What is modelled is the text that is
-- appended; that a text fits into the buffer is about Buffer.
pub mod Accept
pub mod Texts
pub mod Numbers
pub mod Hex
pub mod Lists
pub mod Unescape
pub mod Examples
use redscope.Base.{
  ℕ, ◌+◌, ◌-◌, ◌%◌, ◌^◌, Bool, none, some, List, [], ◌∷◌, ◌++◌, ltb, ◌==◌, if◌then◌else◌, Bytes,
  CStr, length, replicate, codes,
}
use redscope.Base.Int.{ℤ, pos, negsuc}
use redscope.Format.{hex, decimal}

-- `%04X`.
unfoldable pub hex4 : ℕ → Bytes
unfolding hex
hex4 n = let s = hex n in replicate (4 - length s) b'0' ++ s

-- The switch of `AppendJsonStringN`.
unfoldable pub escaped : ℕ → Bytes
unfolding hex4
escaped c =
    if c == b'"'
    then b'\\' ∷ b'"' ∷ []
    else if c == b'\\'
    then b'\\' ∷ b'\\' ∷ []
    else if c == 10
    then b'\\' ∷ b'n' ∷ []
    else if c == 13
    then b'\\' ∷ b'r' ∷ []
    else if c == 9
    then b'\\' ∷ b't' ∷ []
    else if ltb c 32
    then b'\\' ∷ b'u' ∷ hex4 c
    else c ∷ []

unfoldable pub escape : Bytes → Bytes
unfolding escaped
escape [] = []
escape (c ∷ s) = escaped c ++ escape s

-- `AppendJsonStringN`.
unfoldable pub json_text : Bytes → Bytes
unfolding escape
json_text s = b'"' ∷ (escape s ++ (b'"' ∷ []))

-- `AppendJsonString`.
abbrev pub json_cstr : CStr → Bytes
json_cstr none = json_text []
json_cstr (some s) = json_text s

-- `%u` and `%llu` of an argument of 32 and of 64 bits, `%lld` of one of 64 bits with a sign.
unfoldable pub print_u : ℕ → Bytes
print_u n = decimal (n % 2 ^ 32)

unfoldable pub print_llu : ℕ → Bytes
print_llu n = decimal (n % 2 ^ 64)

unfoldable pub print_lld : ℤ → Bytes
print_lld (pos n) = decimal (n % 2 ^ 63)
print_lld (negsuc n) = b'-' ∷ decimal (n % 2 ^ 63 + 1)

abbrev pub json_bool : Bool → Bytes
json_bool b = if b then codes "true" else codes "false"

-- The loops over lists put `, ` before each item but the first.
abbrev pub listed_more : List Bytes → Bytes
listed_more [] = []
listed_more (x ∷ xs) = codes ", " ++ (x ++ listed_more xs)

abbrev pub listed : List Bytes → Bytes
listed [] = []
listed (x ∷ xs) = x ++ listed_more xs
