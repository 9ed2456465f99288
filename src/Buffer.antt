-- ===== src/Buffer.antt =====
-- src/util/PreallocatedBuffer.cpp: the report buffer that is allocated before a crash and never
-- grows. `contents` are the first `size_` bytes at `data_`, so `size_` is its length. Sizes of
-- objects in memory stay below 2^63, so the sums of two of them do not wrap.
pub mod Laws
pub mod Writes
pub mod Examples
use redscope.Base.{
  ℕ, ◌+◌, ◌-◌, Bool, true, false, not, ◌||◌, Option, none, some, List, [], ◌∷◌, ◌++◌, Bytes, CStr,
  if◌then◌else◌, ltb, leb, ◌==◌, length, take,
}

pub record PreallocatedBuffer : Type 0 where
  pub data_ : Bool
  pub contents : Bytes
  pub capacity : ℕ
  pub overflow : Bool

abbrev pub size : PreallocatedBuffer → ℕ
size b = length b.contents

-- Before `Reserve`: no block, and no overflow yet.
abbrev pub fresh : PreallocatedBuffer
fresh = record { data_ = false; contents = []; capacity = 0; overflow = false }

-- The flag says whether `malloc` gave a block.
unfoldable pub reserve : Bool → ℕ → PreallocatedBuffer → PreallocatedBuffer
reserve got bytes b = record {
  data_ = got;
  contents = [];
  capacity = if got then bytes else 0;
  overflow = not got;
}

unfoldable pub reset : PreallocatedBuffer → PreallocatedBuffer
reset b = record b { contents = []; overflow = false }

-- `Append(std::string_view)`.
unfoldable pub append : Bytes → PreallocatedBuffer → PreallocatedBuffer × Bool
append s b =
    if b.overflow || not b.data_
    then (b, false)
    else if ltb b.capacity (size b + length s)
    then (record b { overflow = true }, false)
    else (record b { contents = b.contents ++ s }, true)

-- `Append(const char*)`.
unfoldable pub append_cstr : CStr → PreallocatedBuffer → PreallocatedBuffer × Bool
append_cstr none b = (b, false)
append_cstr (some s) b = append s b

unfoldable pub append_char : ℕ → PreallocatedBuffer → PreallocatedBuffer × Bool
append_char c b =
    if b.overflow || not b.data_
    then (b, false)
    else if ltb b.capacity (size b + 1)
    then (record b { overflow = true }, false)
    else (record b { contents = b.contents ++ (c ∷ []) }, true)

-- What `vsnprintf` leaves in `room` bytes when the text is too long: a cut text and its NUL.
abbrev pub cut : ℕ → Bytes → Bytes
cut room s = if room == 0 then [] else take (room - 1) s ++ (0 ∷ [])

-- `none` is an encoding error, where `vsnprintf` returns a negative number.
formatted : Option Bytes → PreallocatedBuffer → PreallocatedBuffer × Bool
formatted none b = (record b { overflow = true }, false)
formatted (some s) b =
    let remaining = b.capacity - size b in
    if leb remaining (length s)
    then (record b { contents = b.contents ++ cut remaining s; overflow = true }, false)
    else (record b { contents = b.contents ++ s }, true)

-- `Appendf`, given the text that its format and arguments make.
unfoldable pub appendf : Option Bytes → PreallocatedBuffer → PreallocatedBuffer × Bool
unfolding formatted
appendf text b = if b.overflow || not b.data_ then (b, false) else formatted text b
