-- ===== src/Smbios/Examples.antt =====
-- Tests of the reader of the firmware's table, and its theorem at a concrete table.
use redscope.Base.{
  ℕ, ◌+◌, ◌^◌, ◌<◌, ◌≡◌, refl, none, some, List, [], ◌∷◌, ◌++◌, arith, length, replicate, codes,
  IsDefined,
}
use redscope.Smbios.{
  no_ram, read_u16, read_stream_len, text_end, string_loop, smbios_string, smbios_memory_type_name,
  strings_end, first_text, read_configured, populated_device, memory_device, read_structure,
  structures, parse_smbios_and_fill_ram,
}
use redscope.Smbios.Reads.{parse_smbios_and_fill_ram-IsDefined}
use redscope.Stream.{strip_end}

-- A memory device of 27 bytes: 0x2000 MB, DDR5, 4800 MHz, with two texts, and behind it the end of the table.
abbrev device : List ℕ
device =
    17 ∷ 27 ∷ 0 ∷ 0 ∷ replicate 8 0
    ++ (0 ∷ 0x20 ∷ 0 ∷ 0 ∷ 0 ∷ 0 ∷ 0x22 ∷ 0 ∷ 0 ∷ 0xC0 ∷ 0x12 ∷ 1 ∷ 0 ∷ 0 ∷ 2 ∷ codes "Corsair")
    ++ (0 ∷ codes "CMK32  ")
    ++ (0 ∷ 0 ∷ [])

abbrev table_end : List ℕ
table_end = 127 ∷ 4 ∷ 0 ∷ 0 ∷ 0 ∷ 0 ∷ 0 ∷ []

abbrev table : List ℕ
table = 0 ∷ 3 ∷ 3 ∷ 0 ∷ 51 ∷ 0 ∷ 0 ∷ 0 ∷ device ++ table_end

one_module :
    parse_smbios_and_fill_ram (table ++ (0 ∷ [])) (length table) no_ram
    ≡ some (record {
      speed_mhz = 4800;
      dimm_count = 1;
      type = codes "DDR5";
      manufacturer = codes "Corsair";
      part_number = codes "CMK32";
    })
unfolding parse_smbios_and_fill_ram read_stream_len structures read_structure strings_end
    memory_device populated_device first_text smbios_string string_loop text_end read_u16
    read_configured smbios_memory_type_name strip_end
one_module = refl

-- A device of 21 bytes with one byte behind it: the speed is read up to the byte behind the table.
abbrev short_table : List ℕ
short_table = 0 ∷ 3 ∷ 3 ∷ 0 ∷ 22 ∷ 0 ∷ 0 ∷ 0 ∷ 17 ∷ 21 ∷ replicate 20 1

reads_behind : parse_smbios_and_fill_ram short_table (length short_table) no_ram ≡ none
unfolding parse_smbios_and_fill_ram read_stream_len structures read_structure strings_end
    memory_device read_u16
reads_behind = refl

-- The length of the structures wraps in the test against the size of the table.
abbrev wrapped_table : List ℕ
wrapped_table = 0 ∷ 3 ∷ 3 ∷ 0 ∷ 0xFC ∷ 0xFF ∷ 0xFF ∷ 0xFF ∷ 0 ∷ 0xFF ∷ 1 ∷ 1 ∷ []

wraps : parse_smbios_and_fill_ram wrapped_table (length wrapped_table) no_ram ≡ none
unfolding parse_smbios_and_fill_ram read_stream_len structures strings_end
wraps = refl

-- A device that ends the table is not counted.
abbrev device_last : List ℕ
device_last = 0 ∷ 3 ∷ 3 ∷ 0 ∷ 44 ∷ 0 ∷ 0 ∷ 0 ∷ device

last_is_lost : parse_smbios_and_fill_ram device_last (length device_last) no_ram ≡ some no_ram
unfolding parse_smbios_and_fill_ram read_stream_len structures strings_end
last_is_lost = refl

table_len : (n : ℕ) → read_stream_len (table ++ (0 ∷ [])) ≡ some n → n + 8 < 2 ^ 32
unfolding read_stream_len
table_len n e = ground (arith, e)

parse_smbios_and_fill_ram-IsDefined_example :
    IsDefined (parse_smbios_and_fill_ram (table ++ (0 ∷ [])) (length table) no_ram)
parse_smbios_and_fill_ram-IsDefined_example =
    parse_smbios_and_fill_ram-IsDefined (table ++ (0 ∷ [])) (length table) no_ram (omega arith)
      table_len
