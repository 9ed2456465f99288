-- ===== src/Smbios/Reads.antt =====
-- src/snapshot/HardwareSpecs.cpp, `ParseSmbiosAndFillRam`: which bytes are read, and that the loops end.
use redscope.Base.{
  ℕ, zero, suc, ◌+◌, ◌-◌, ◌%◌, ◌^◌, ◌≤◌, ◌<◌, ◌≡◌, refl, inl, inr, Bool, true, false, ◌&&◌, ◌||◌,
  Option, some, arith, ltb, leb, ◌==◌, if◌then◌else◌, tests, Bool-cases, Bytes, ◌>>=◌, length,
  IsDefined, bind-IsDefined, bind-at, get_elem?-some,
}
use redscope.Smbios.{
  Memory, read_u16, read_stream_len, text_end, string_loop, smbios_string, RamInfo, no_ram,
  strings_end, first_text, read_configured, populated_device, memory_device, read_structure,
  structures, stream_len_of, parse_smbios_and_fill_ram,
}
use redscope.Stream.{is_empty}

-- A test whose branches both have a result.
if-IsDefined {ℓ} :
    {A : Type ℓ} (b : Bool) (x y : Option A)
    → (b ≡ true → IsDefined x)
    → (b ≡ false → IsDefined y)
    → IsDefined (if b then x else y)
if-IsDefined true x y h k = h refl
if-IsDefined false x y h k = k refl

read_u16-IsDefined : (mem : Memory) (i : ℕ) → i + 1 < length mem → IsDefined (read_u16 mem i)
unfolding read_u16
read_u16-IsDefined mem i h =
    bind-IsDefined _ _ (get_elem?-some mem i (omega (arith, h)))
      (λ a. bind-IsDefined _ _ (get_elem?-some mem (i + 1) h) (λ b. (_, refl)))

-- A result with a property.
abbrev Gives {ℓ κ} : {A : Type ℓ} → (A → Type κ) → Option A → Type (ℓ ⊔ κ)
Gives {A} P o = (a : A) × (o ≡ some a) × P a

bind-Gives {ℓ κ μ} :
    {A : Type ℓ} {B : Type μ} {P : A → Type κ} (m : Option A) (f : A → Option B)
    → Gives P m
    → ((a : A) → P a → IsDefined (f a))
    → IsDefined (m >>= f)
bind-Gives m f (a, e, p) k = bind-at m f e (k a p)

-- The end of a text is found, and lies between the start and the limit.
text_end-Gives :
    (f : ℕ) (mem : Memory) (end cursor : ℕ)
    → end < length mem
    → cursor ≤ end
    → end < cursor + f
    → Gives (λ stop. (cursor ≤ stop) × (stop ≤ end)) (text_end f mem end cursor)
unfolding text_end
text_end-Gives zero mem end cursor h k fuel = absurd (omega arith)
text_end-Gives (suc f) mem end cursor h k fuel = elim (Bool-cases (ltb cursor end)) [
  | inl e ↦
      let g = get_elem?-some mem cursor (omega (tests, e, h)) in
      rw (e, g.1)
        (elim (Bool-cases (g.0 == 0)) [
          | inl z ↦ rw z (cursor, refl, (omega arith, k))
          | inr z ↦
              let r =
                text_end-Gives f mem end (cursor + 1) h (omega (tests, e)) (omega (arith, fuel)) in
              rw z (r.0, r.1, (omega (arith, r.2.0), r.2.1))
        ])
  | inr e ↦ rw e (cursor, refl, (omega arith, k))
]

string_loop-IsDefined :
    (f : ℕ) (mem : Memory) (end cursor wanted : ℕ)
    → end < length mem
    → 0 < f
    → end < cursor + f
    → IsDefined (string_loop f mem end cursor wanted)
unfolding string_loop
string_loop-IsDefined zero mem end cursor wanted h turn fuel = absurd (omega arith)
string_loop-IsDefined (suc f) mem end cursor wanted h turn fuel =
    elim (Bool-cases (ltb cursor end)) [
      | inl e ↦ rw e (
          bind-Gives _ _
            (text_end-Gives (end - cursor + 1) mem end cursor h (omega (tests, e))
              (omega (tests, e)))
            (λ stop b.
              if-IsDefined (stop == cursor) _ _ (λ x. (_, refl))
                (λ x.
                  if-IsDefined (wanted == 1) _ _ (λ y. (_, refl))
                    (λ y.
                      string_loop-IsDefined f mem end (stop + 1) (wanted - 1) h
                        (omega (tests, e, fuel)) (omega (arith, fuel, b.0))))))
      | inr e ↦ rw e (_, refl)
    ]

smbios_string-IsDefined :
    (mem : Memory) (formatted len end index : ℕ)
    → end < length mem
    → IsDefined (smbios_string mem formatted len end index)
unfolding smbios_string
smbios_string-IsDefined mem formatted len end index h =
    if-IsDefined (index == 0) _ _ (λ x. (_, refl))
      (λ x.
        string_loop-IsDefined (end - (formatted + len) + 1) mem end (formatted + len) index h
          (omega arith) (omega arith))

-- The two NULs are looked for up to the limit.
strings_end-Gives :
    (f : ℕ) (mem : Memory) (end p : ℕ)
    → end < length mem
    → p ≤ end
    → end < p + f
    → Gives (λ q. (p ≤ q) × (q ≤ end)) (strings_end f mem end p)
unfolding strings_end
strings_end-Gives zero mem end p h k fuel = absurd (omega arith)
strings_end-Gives (suc f) mem end p h k fuel = elim (Bool-cases (ltb (p + 1) end)) [
  | inl e ↦
      let g = get_elem?-some mem p (omega (tests, e, h)) in
      let g' = get_elem?-some mem (p + 1) (omega (tests, e, h)) in
      rw (e, g.1, g'.1)
        (elim (Bool-cases (g.0 == 0 && g'.0 == 0)) [
          | inl z ↦ rw z (p + 2, refl, (omega arith, omega (tests, e)))
          | inr z ↦
              let r =
                strings_end-Gives f mem end (p + 1) h (omega (tests, e)) (omega (arith, fuel)) in
              rw z (r.0, r.1, (omega (arith, r.2.0), r.2.1))
        ])
  | inr e ↦ rw e (p, refl, (omega arith, k))
]

first_text-IsDefined :
    (wanted : Bool) (mem : Memory) (formatted len p offset : ℕ) (old : Bytes)
    → p < length mem
    → (wanted ≡ true → formatted + offset < length mem)
    → IsDefined (first_text wanted mem formatted len p offset old)
unfolding first_text
first_text-IsDefined false mem formatted len p offset old h k = (old, refl)
first_text-IsDefined true mem formatted len p offset old h k =
    bind-IsDefined _ _ (get_elem?-some mem (formatted + offset) (k refl))
      (λ index. smbios_string-IsDefined mem formatted len p index h)

read_configured-IsDefined :
    (mem : Memory) (formatted len : ℕ)
    → formatted + len < length mem
    → IsDefined (read_configured mem formatted len)
unfolding read_configured
read_configured-IsDefined mem formatted len h =
    if-IsDefined (leb 0x22 len) _ _
      (λ e. read_u16-IsDefined mem (formatted + 0x20) (omega (tests, e, h))) (λ e. (0, refl))

populated_device-IsDefined :
    (mem : Memory) (formatted len p t speed : ℕ) (r : RamInfo)
    → formatted + len < length mem
    → p < length mem
    → IsDefined (populated_device mem formatted len p t speed r)
unfolding populated_device
populated_device-IsDefined mem formatted len p t speed r h k =
    let by_maker = is_empty r.manufacturer && leb 0x18 len in
    let by_part = is_empty r.part_number && leb 0x1B len in
    bind-IsDefined _ _
      (first_text-IsDefined by_maker mem formatted len p 0x17 r.manufacturer k
        (λ e. omega (tests, long 0x18 _ e, h)))
      (λ maker.
        bind-IsDefined _ _
          (first_text-IsDefined by_part mem formatted len p 0x1A r.part_number k
            (λ e. omega (tests, long 0x1B _ e, h)))
          (λ part. (_, refl)))
  where
    long : (n : ℕ) (b : Bool) → (b && leb n len) ≡ true → n ≤ len
    long n b e = ground (arith, e)

memory_device-IsDefined :
    (mem : Memory) (formatted len p : ℕ) (r : RamInfo)
    → 0x15 ≤ len
    → formatted + len + 1 < length mem
    → p < length mem
    → IsDefined (memory_device mem formatted len p r)
unfolding memory_device
memory_device-IsDefined mem formatted len p r l h k =
    bind-IsDefined _ _ (read_u16-IsDefined mem (formatted + 0x0C) (omega (arith, l, h))) (λ size.
      bind-IsDefined _ _ (get_elem?-some mem (formatted + 0x12) (omega (arith, l, h))) (λ t.
        bind-IsDefined _ _ (read_u16-IsDefined mem (formatted + 0x15) (omega (arith, l, h)))
          (λ rated.
            bind-IsDefined _ _ (read_configured-IsDefined mem formatted len (omega (arith, h)))
              (λ configured.
                if-IsDefined (size == 0 || size == 0xFFFF) _ _ (λ e. (r, refl))
                  (λ e.
                    populated_device-IsDefined mem formatted len p t _ r (omega (arith, h)) k)))))

read_structure-IsDefined :
    (type : ℕ) (mem : Memory) (formatted len p end : ℕ) (r : RamInfo)
    → formatted + len ≤ p
    → p < end + 1
    → ltb end (p + 1) ≡ false
    → end < length mem
    → IsDefined (read_structure type mem formatted len p r)
unfolding read_structure
read_structure-IsDefined type mem formatted len p end r l h e k =
    if-IsDefined (type == 17 && leb 0x15 len) _ _
      (λ t.
        memory_device-IsDefined mem formatted len p r (ground (arith, t)) (omega (tests, e, k, l))
          (omega (arith, h, k)))
      (λ t. (r, refl))

-- One round, when a structure begins at `cursor`, before what the next rounds do.
structures-IsDefined :
    (f : ℕ) (mem : Memory) (end cursor : ℕ) (r : RamInfo)
    → end < length mem
    → 0 < f
    → end < cursor + f
    → IsDefined (structures f mem end cursor r)
unfolding structures
structures-IsDefined zero mem end cursor r h turn fuel = absurd (omega arith)
structures-IsDefined (suc f) mem end cursor r h turn fuel =
    if-IsDefined (leb (cursor + 4) end) _ _
      (λ e. bind-IsDefined _ _ (get_elem?-some mem cursor (omega (tests, e, h))) (λ type.
        bind-IsDefined _ _ (get_elem?-some mem (cursor + 1) (omega (tests, e, h))) (λ len.
          if-IsDefined (ltb len 4 || ltb end (cursor + len)) _ _ (λ x. (r, refl))
            (λ x.
              let long : 4 ≤ len = ground (arith, x) in
              let inside : cursor + len ≤ end = ground (arith, x) in
              bind-Gives _ _
                (strings_end-Gives (end - (cursor + len) + 1) mem end (cursor + len) h inside
                  (omega (arith, inside)))
                (λ p b.
                  if-IsDefined (ltb end (p + 1)) _ _ (λ y. (r, refl))
                    (λ y.
                      bind-IsDefined _ _
                        (read_structure-IsDefined type mem cursor len p end r b.0
                          (omega (arith, b.1)) y h)
                        (λ read.
                          if-IsDefined (type == 127) _ _ (λ z. (read, refl))
                            (λ z.
                              structures-IsDefined f mem end p read h (omega (tests, e, fuel))
                                (omega (arith, fuel, long, b.0))))))))))
      (λ e. (r, refl))

read_stream_len-IsDefined : (mem : Memory) → 7 < length mem → IsDefined (read_stream_len mem)
unfolding read_stream_len
read_stream_len-IsDefined mem h = bind-IsDefined _ _ (get_elem?-some mem 4 (omega (arith, h))) (λ a.
    bind-IsDefined _ _ (get_elem?-some mem 5 (omega (arith, h))) (λ b.
      bind-IsDefined _ _ (get_elem?-some mem 6 (omega (arith, h)))
        (λ c. bind-IsDefined _ _ (get_elem?-some mem 7 h) (λ d. (_, refl)))))

stream_len_within :
    (blob_len n : ℕ) → 8 ≤ blob_len → n + 8 < 2 ^ 32 → 8 + stream_len_of blob_len n ≤ blob_len
stream_len_within blob_len n h k = elim (Bool-cases (n == 0 || ltb blob_len ((8 + n) % 2 ^ 32))) [
  | inl e ↦ rw e (omega (arith, h))
  | inr e ↦ rw e (ground (arith, e, k))
]

-- The parser ends and reads at most one byte behind the table of `blob_len` bytes, whatever the table
-- holds, if the length that the table gives for its structures is less than 2 ^ 32 - 8.
pub parse_smbios_and_fill_ram-IsDefined :
    (mem : Memory) (blob_len : ℕ) (s : RamInfo)
    → blob_len < length mem
    → ((n : ℕ) → read_stream_len mem ≡ some n → n + 8 < 2 ^ 32)
    → IsDefined (parse_smbios_and_fill_ram mem blob_len s)
unfolding parse_smbios_and_fill_ram
parse_smbios_and_fill_ram-IsDefined mem blob_len s h k =
    if-IsDefined (ltb blob_len 8) _ _ (λ e. (s, refl))
      (λ e.
        let read = read_stream_len-IsDefined mem (omega (tests, e, h)) in
        let len = stream_len_of blob_len read.0 in
        let within = stream_len_within blob_len read.0 (omega (tests, e)) (k read.0 read.1) in
        bind-at _ _ read.1 (
          structures-IsDefined (len + 1) mem (8 + len) 8 no_ram (omega (arith, within, h))
            (omega arith) (omega arith)))
