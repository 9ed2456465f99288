-- ===== src/Fnv/Examples.antt =====
-- Tests of the hash and of the ids.
use redscope.Base.{◌-◌, ◌/◌, ◌^◌, ◌≡◌, refl, ◌↔◌, some, arith, codes}
use redscope.Fnv.{fnv_offset, fnv_bytes, encode_id}
use redscope.Fnv.Ids.{encode_id_iff}

-- The published FNV-1a value of "a".
hash_a : fnv_bytes fnv_offset (codes "a") ≡ 0xaf63dc4c8601ec8c
unfolding fnv_bytes
hash_a = refl

id_of_ones : encode_id (2 ^ 64 - 1) 12 ≡ some (codes "ZZZZZZZZ")
unfolding encode_id
id_of_ones = refl

encode_id_iff_example : (encode_id 5 12 ≡ encode_id 77 12) ↔ (5 / 2 ^ 24 ≡ 77 / 2 ^ 24)
encode_id_iff_example = encode_id_iff 5 77 (omega arith) (omega arith)
