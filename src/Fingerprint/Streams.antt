-- ===== src/Fingerprint/Streams.antt =====
-- src/report/Fingerprint.cpp, `ComputeFingerprintCore`: the hashes as hashes of one byte string.
use redscope.Base.{
  ℕ, ◌≡◌, refl, sym, ap, ◌∙◌, ◌≢◌, inl, inr, Bool, true, false, none, some, List, [], ◌∷◌, ◌++◌,
  append-nil, arith, if◌then◌else◌, Bool-cases, Bytes, CStr, take,
}
use redscope.Fnv.{fnv_offset, fnv_bytes, fnv_str, fnv_u64, fnv_sep, le_bytes, field_sep}
use redscope.Fnv.Streams.{fnv_bytes-append, fnv_str-bytes, text_of}
use redscope.Fingerprint.{
  present, or_one, add_module, site_hash, game_unsymbolicated, loose_hash, add_tail,
  max_fingerprint_tail, compute_fingerprint_core,
}

abbrev pub module_bytes : CStr → ℕ → CStr → Bytes
module_bytes none rva symbol = []
module_bytes (some m) rva symbol =
    m ++ field_sep ∷ (if present symbol then text_of symbol else le_bytes 8 rva)

-- The exception code, the build and the place of the fault, with a separator behind each of the
-- first two and behind the module's name.
abbrev pub site_bytes : ℕ → CStr → CStr → ℕ → CStr → Bytes
site_bytes code build module_name rva symbol =
    le_bytes 8 code
    ++ field_sep ∷ (text_of build ++ field_sep ∷ module_bytes module_name rva symbol)

-- A separator and the name for each entry of the tail.
abbrev pub tail_bytes : List CStr → Bytes
tail_bytes [] = []
tail_bytes (t ∷ tail) = field_sep ∷ (text_of t ++ tail_bytes tail)

sep_cons : (h : ℕ) (t : Bytes) → fnv_bytes (fnv_sep h) t ≡ fnv_bytes h (field_sep ∷ t)
unfolding fnv_sep fnv_bytes
sep_cons h t = refl

-- A text, a separator, and what follows.
piece :
    (h : ℕ) (s : CStr) (t : Bytes)
    → fnv_bytes (fnv_sep (fnv_str h s)) t ≡ fnv_bytes h (text_of s ++ field_sep ∷ t)
piece h s t =
    ap (λ x. fnv_bytes (fnv_sep x) t) (fnv_str-bytes h s)
    ∙ sep_cons (fnv_bytes h (text_of s)) t
    ∙ sym (fnv_bytes-append h (text_of s) (field_sep ∷ t))

fnv_u64-bytes : (h v : ℕ) → fnv_u64 h v ≡ fnv_bytes h (le_bytes 8 v)
unfolding fnv_u64
fnv_u64-bytes h v = refl

add_module-bytes :
    (h : ℕ) (m : CStr) (rva : ℕ) (symbol : CStr)
    → add_module h m rva symbol ≡ fnv_bytes h (module_bytes m rva symbol)
unfolding add_module
add_module-bytes h none rva symbol = unfold fnv_bytes in refl
add_module-bytes h (some m) rva symbol = elim (Bool-cases (present symbol)) [
  | inl named ↦ rw named (fnv_str-bytes _ symbol ∙ piece h (some m) (text_of symbol))
  | inr anonymous ↦ rw anonymous (fnv_u64-bytes _ rva ∙ piece h (some m) (le_bytes 8 rva))
]

site_hash-bytes :
    (code : ℕ) (build m : CStr) (rva : ℕ) (symbol : CStr)
    → site_hash code build m rva symbol ≡ fnv_bytes fnv_offset (site_bytes code build m rva symbol)
unfolding site_hash
site_hash-bytes code build m rva symbol =
    let h = fnv_u64 fnv_offset code in
    let rest = text_of build ++ field_sep ∷ module_bytes m rva symbol in
    add_module-bytes (fnv_sep (fnv_str (fnv_sep h) build)) m rva symbol
    ∙ piece (fnv_sep h) build (module_bytes m rva symbol)
    ∙ sep_cons h rest
    ∙ ap (λ x. fnv_bytes x (field_sep ∷ rest)) (fnv_u64-bytes fnv_offset code)
    ∙ sym (fnv_bytes-append fnv_offset (le_bytes 8 code) (field_sep ∷ rest))

add_tail-bytes : (h : ℕ) (tail : List CStr) → add_tail h tail ≡ fnv_bytes h (tail_bytes tail)
unfolding add_tail
add_tail-bytes h [] = unfold fnv_bytes in refl
add_tail-bytes h (t ∷ tail) =
    add_tail-bytes (fnv_str (fnv_sep h) t) tail
    ∙ ap (λ x. fnv_bytes x (tail_bytes tail)) (fnv_str-bytes (fnv_sep h) t)
    ∙ sym (fnv_bytes-append (fnv_sep h) (text_of t) (tail_bytes tail))
    ∙ sep_cons h (text_of t ++ tail_bytes tail)

or_one_pos : (h : ℕ) → or_one h ≢ 0
or_one_pos h = ground arith

-- The hash of the whole, with 1 in place of 0.
abbrev pub fnv1a : Bytes → ℕ
fnv1a s = or_one (fnv_bytes fnv_offset s)

-- The bytes of the loose hash behind those of the site.
abbrev pub loose_bytes : Bool → List CStr → Bytes
loose_bytes true (some t ∷ tail) = field_sep ∷ t
loose_bytes true tail = []
loose_bytes false tail = []

loose_hash-bytes :
    (h : ℕ) (s : Bytes) (game : Bool) (tail : List CStr)
    → h ≡ fnv_bytes fnv_offset s
    → loose_hash h game tail ≡ fnv_bytes fnv_offset (s ++ loose_bytes game tail)
unfolding loose_hash
loose_hash-bytes h s true (some t ∷ tail) e =
    fnv_str-bytes (fnv_sep h) (some t)
    ∙ sep_cons h t
    ∙ ap (λ x. fnv_bytes x (field_sep ∷ t)) e
    ∙ sym (fnv_bytes-append fnv_offset s (field_sep ∷ t))
loose_hash-bytes h s true (none ∷ tail) e = rw append-nil e
loose_hash-bytes h s true [] e = rw append-nil e
loose_hash-bytes h s false tail e = rw append-nil e

-- The primary hash is FNV-1a over the fault's site and the first five names of the tail, and the
-- loose hash is FNV-1a over the site alone, or, for a fault in the game's own code with no symbol,
-- over the site and the first name. Neither is 0.
pub compute_fingerprint_core-streams :
    (code : ℕ) (build m : CStr) (rva : ℕ) (symbol : CStr) (tail : List CStr) (mods : ℕ) (u : Bool)
    → let fp = compute_fingerprint_core code build m rva symbol tail mods u in
      let site = site_bytes code build m rva symbol in
      (fp.primary ≡ fnv1a (site ++ tail_bytes (take max_fingerprint_tail tail)))
      × (fp.loose ≡ fnv1a (site ++ loose_bytes (game_unsymbolicated m symbol) tail))
      × (fp.primary ≢ 0)
      × (fp.loose ≢ 0)
unfolding compute_fingerprint_core
compute_fingerprint_core-streams code build m rva symbol tail mods u =
    let s = site_bytes code build m rva symbol in
    let e = site_hash-bytes code build m rva symbol in
    (
      ap or_one (
          add_tail-bytes _ (take max_fingerprint_tail tail)
          ∙ ap (λ x. fnv_bytes x (tail_bytes (take max_fingerprint_tail tail))) e
          ∙ sym (fnv_bytes-append fnv_offset s (tail_bytes (take max_fingerprint_tail tail)))),
      ap or_one (loose_hash-bytes _ s (game_unsymbolicated m symbol) tail e),
      or_one_pos (add_tail (site_hash code build m rva symbol) (take max_fingerprint_tail tail)),
      or_one_pos
          (loose_hash (site_hash code build m rva symbol) (game_unsymbolicated m symbol) tail),
    )
