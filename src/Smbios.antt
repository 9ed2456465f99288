-- ===== src/Smbios.antt =====
-- src/snapshot/HardwareSpecs.cpp, `ParseSmbiosAndFillRam`: what the firmware's table says of the memory.
-- A position is counted from `blob`, and the list is the memory that can be read from there on; a read
-- behind it gives none, and so does a loop that runs out of rounds.
pub mod Reads
pub mod Examples
use redscope.Base.{
  ℕ, zero, suc, ◌+◌, ◌-◌, ◌*◌, ◌%◌, ◌^◌, Bool, true, false, ◌&&◌, ◌||◌, Option, none, some, List,
  [], ltb, leb, ◌==◌, if◌then◌else◌, Bytes, ◌>>=◌, get_elem?, take, drop, codes,
}
use redscope.Stream.{is_empty, strip_end}

abbrev pub Memory : Type 0
Memory = List ℕ

-- `SmbiosReadU16`.
unfoldable pub read_u16 : Memory → ℕ → Option ℕ
read_u16 mem i = do a ← get_elem? mem i; b ← get_elem? mem (i + 1); some ((a + b * 256) % 2 ^ 16)

unfoldable pub read_stream_len : Memory → Option ℕ
read_stream_len mem = do
  a ← get_elem? mem 4
  b ← get_elem? mem 5
  c ← get_elem? mem 6
  d ← get_elem? mem 7
  some ((a + b * 256 + c * 2 ^ 16 + d * 2 ^ 24) % 2 ^ 32)

-- The first NUL from `cursor` on, or `end`.
unfoldable pub text_end : ℕ → Memory → ℕ → ℕ → Option ℕ
text_end zero mem end cursor = none
text_end (suc f) mem end cursor =
    let more = text_end f mem end (cursor + 1) in
    if ltb cursor end
    then (do c ← get_elem? mem cursor; if c == 0 then some cursor else more)
    else some cursor

-- The outer loop of `SmbiosString`.
unfoldable pub string_loop : ℕ → Memory → ℕ → ℕ → ℕ → Option Bytes
unfolding text_end
string_loop zero mem end cursor wanted = none
string_loop (suc f) mem end cursor wanted =
    if ltb cursor end
    then (do
      stop ← text_end (end - cursor + 1) mem end cursor
      let more = string_loop f mem end (stop + 1) (wanted - 1)
      (if stop == cursor
          then some []
          else if wanted == 1
          then some (take (stop - cursor) (drop cursor mem))
          else more))
    else some []

unfoldable pub smbios_string : Memory → ℕ → ℕ → ℕ → ℕ → Option Bytes
unfolding string_loop
smbios_string mem formatted len end index =
    if index == 0
    then some []
    else string_loop (end - (formatted + len) + 1) mem end (formatted + len) index

unfoldable pub smbios_memory_type_name : ℕ → Bytes
smbios_memory_type_name t =
    if t == 0x18
    then codes "DDR3"
    else if t == 0x19
    then codes "FBD2"
    else if t == 0x1A
    then codes "DDR4"
    else if t == 0x1B
    then codes "LPDDR"
    else if t == 0x1C
    then codes "LPDDR2"
    else if t == 0x1D
    then codes "LPDDR3"
    else if t == 0x1E
    then codes "LPDDR4"
    else if t == 0x22
    then codes "DDR5"
    else if t == 0x23
    then codes "LPDDR5"
    else []

-- The five fields of `HardwareSpecs` that are filled.
pub record RamInfo : Type 0 where
  pub speed_mhz : ℕ
  pub dimm_count : ℕ
  pub type : Bytes
  pub manufacturer : Bytes
  pub part_number : Bytes

abbrev pub no_ram : RamInfo
no_ram = record { speed_mhz = 0; dimm_count = 0; type = []; manufacturer = []; part_number = [] }

-- The loop that looks for the two NULs behind the texts of a structure.
unfoldable pub strings_end : ℕ → Memory → ℕ → ℕ → Option ℕ
strings_end zero mem end p = none
strings_end (suc f) mem end p =
    let more = strings_end f mem end (p + 1) in
    if ltb (p + 1) end
    then (do
      a ← get_elem? mem p
      b ← get_elem? mem (p + 1)
      if a == 0 && b == 0 then some (p + 2) else more)
    else some p

-- A text of the structure, if it is wanted, or what is there already.
unfoldable pub first_text : Bool → Memory → ℕ → ℕ → ℕ → ℕ → Bytes → Option Bytes
unfolding smbios_string
first_text true mem formatted len p offset old = do
  index ← get_elem? mem (formatted + offset)
  smbios_string mem formatted len p index
first_text false mem formatted len p offset old = some old

unfoldable pub read_configured : Memory → ℕ → ℕ → Option ℕ
unfolding read_u16
read_configured mem formatted len = if leb 0x22 len then read_u16 mem (formatted + 0x20) else some 0

abbrev pub trim_part : Bool → Bytes → Bytes
unfolding strip_end
trim_part wanted s = if wanted then strip_end (λ c. c == b' ') s else s

-- A memory device with a module in it.
unfoldable pub populated_device : Memory → ℕ → ℕ → ℕ → ℕ → ℕ → RamInfo → Option RamInfo
unfolding first_text smbios_memory_type_name strip_end
populated_device mem formatted len p mem_type speed r =
    let by_maker = is_empty r.manufacturer && leb 0x18 len in
    let by_part = is_empty r.part_number && leb 0x1B len in
    do
      maker ← first_text by_maker mem formatted len p 0x17 r.manufacturer
      part ← first_text by_part mem formatted len p 0x1A r.part_number
      some (record {
        speed_mhz = if ltb r.speed_mhz speed then speed else r.speed_mhz;
        dimm_count = (r.dimm_count + 1) % 2 ^ 32;
        type = if is_empty r.type then smbios_memory_type_name mem_type else r.type;
        manufacturer = maker;
        part_number = trim_part by_part part;
      })

-- The branch for a structure of type 17.
unfoldable pub memory_device : Memory → ℕ → ℕ → ℕ → RamInfo → Option RamInfo
unfolding read_u16 read_configured populated_device
memory_device mem formatted len p r = do
  size ← read_u16 mem (formatted + 0x0C)
  mem_type ← get_elem? mem (formatted + 0x12)
  rated ← read_u16 mem (formatted + 0x15)
  configured ← read_configured mem formatted len
  let speed = if configured == 0 then rated else configured
  let filled = populated_device mem formatted len p mem_type speed r
  if size == 0 || size == 0xFFFF then some r else filled

unfoldable pub read_structure : ℕ → Memory → ℕ → ℕ → ℕ → RamInfo → Option RamInfo
unfolding memory_device
read_structure type mem formatted len p r =
    if type == 17 && leb 0x15 len then memory_device mem formatted len p r else some r

-- The loop over the structures.
unfoldable pub structures : ℕ → Memory → ℕ → ℕ → RamInfo → Option RamInfo
unfolding read_structure strings_end
structures zero mem end cursor r = none
structures (suc f) mem end cursor r =
    if leb (cursor + 4) end
    then (do
      type ← get_elem? mem cursor
      len ← get_elem? mem (cursor + 1)
      (if ltb len 4 || ltb end (cursor + len) then some r else (do
        p ← strings_end (end - (cursor + len) + 1) mem end (cursor + len)
        (if ltb end (p + 1) then some r else (do
          read ← read_structure type mem cursor len p r
          let more = structures f mem end p read
          if type == 127 then some read else more)))))
    else some r

-- `8 + streamLen` has 32 bits.
abbrev pub stream_len_of : ℕ → ℕ → ℕ
stream_len_of blob_len n = if n == 0 || ltb blob_len ((8 + n) % 2 ^ 32) then blob_len - 8 else n

-- `blob` is no null pointer.
unfoldable pub parse_smbios_and_fill_ram : Memory → ℕ → RamInfo → Option RamInfo
unfolding read_stream_len structures
parse_smbios_and_fill_ram mem blob_len s = if ltb blob_len 8 then some s else (do
  n ← read_stream_len mem
  let len = stream_len_of blob_len n
  structures (len + 1) mem (8 + len) 8 no_ram)
