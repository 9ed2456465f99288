-- ===== src/Config/AutoDownload/Lines.antt =====
-- src/breadcrumbs/BreadcrumbApi.cpp against src/Config.cpp: what one line does to the two readers.
use redscope.Base.{
  ℕ, ◌≡◌, refl, sym, ap, subst, ◌∙◌, inl, inr, Bool, true, false, ◌||◌, Option, none, some, [], ◌∷◌,
  ◌++◌, arith, ◌==◌, if◌then◌else◌, Bool-cases, Bytes, str_eq, str_eq_iff, FreeOf, codes,
}
use redscope.Stream.{
  is_empty, cut_at, starts_with, skip_while, strip_end, trim_by, begins, is_space,
}
use redscope.Stream.Laws.{strip_end-prefix, cut_at-prefix, skip_while-begins, starts_with_refl}
use redscope.Config.{trim, IniState, header, put_pair, read_ini_line, find_setting}
use redscope.Config.AutoDownload.{is_indent, new_line, opened_section, is_setting}

-- A line on which the two readers agree: what stands before its text is blanks and tabs, and it is a
-- header of a section for both or for none.
abbrev pub IsRegular : Bytes → Type 0
IsRegular l =
    (skip_while is_space l ≡ skip_while is_indent l) × (header (trim l) ≡ opened_section l)

abbrev pub key : Bytes
key = codes "symbols.auto_download"

abbrev pub word : Bool → Bytes
word b = if b then codes "true" else codes "false"

pub read_new_line :
    (b : Bool) (st : IniState)
    → st.section ≡ codes "symbols"
    → read_ini_line (new_line b) st ≡ record st { kv = (key, word b) ∷ st.kv }
unfolding read_ini_line trim_by
read_new_line true st e =
    ap (λ s. record st { kv = (s ++ codes ".auto_download", codes "true") ∷ st.kv }) e
read_new_line false st e =
    ap (λ s. record st { kv = (s ++ codes ".auto_download", codes "false") ∷ st.kv }) e

split_unique :
    (sep : ℕ) (a b c d : Bytes)
    → FreeOf sep c
    → FreeOf sep d
    → a ++ (sep ∷ b) ≡ c ++ (sep ∷ d)
    → (a ≡ c) × (b ≡ d)
split_unique sep [] b [] d f g e = (refl, cc)
split_unique sep [] b (y ∷ c) d f g e = absurd (ground (arith, f.0, e))
split_unique sep (x ∷ a) b [] d f g e = absurd (occurs a b d g (cc))
  where
    occurs : (a b d : Bytes) → FreeOf sep d → a ++ (sep ∷ b) ≡ d → ⊥
    occurs [] b [] g e = cc
    occurs [] b (y ∷ d) g e = ground (arith, g.0, e)
    occurs (x ∷ a) b [] g e = cc
    occurs (x ∷ a) b (y ∷ d) g e = occurs a b d g.1 (cc)
split_unique sep (x ∷ a) b (y ∷ c) d f g e =
    let h = split_unique sep a b c d f.1 g (cc) in (cc, h.1)

starts_with-begins :
    (test : ℕ → Bool) (c : ℕ) (s : Bytes) → starts_with (c ∷ []) s ≡ true → begins test s ≡ test c
unfolding starts_with
starts_with-begins test c [] h = cc
starts_with-begins test c (d ∷ s) h = let e : c ≡ d = ground (arith, h) in ap test (sym e)

starts_with_self : (c : ℕ) (s : Bytes) → starts_with (c ∷ []) (c ∷ s) ≡ true
unfolding starts_with
starts_with_self c s = ground arith

-- The key that stands before `=` on a trimmed line begins with no space.
key_starts : (l a v : Bytes) → cut_at b'=' (trim l) ≡ some (a, v) → skip_while is_space a ≡ a
unfolding trim trim_by skip_while
key_starts l [] v e = refl
key_starts l (c ∷ a) v e =
    let in_line : starts_with (c ∷ []) (trim_by is_space l) ≡ true =
      cut_at-prefix b'=' (c ∷ []) (trim_by is_space l) (c ∷ a) v e (starts_with_self c a) in
    let in_text : starts_with (c ∷ []) (skip_while is_space l) ≡ true =
      strip_end-prefix is_space (c ∷ []) (skip_while is_space l) in_line in
    let no_space : is_space c ≡ false =
      sym (starts_with-begins is_space c (skip_while is_space l) in_text)
      ∙ skip_while-begins is_space l in
    rw no_space refl

-- A line whose key is that of the setting is one that the writer looks for.
setting_found :
    (l a v : Bytes)
    → cut_at b'=' (trim l) ≡ some (a, v)
    → trim a ≡ codes "auto_download"
    → starts_with (codes "auto_download") (skip_while is_space l) ≡ true
unfolding trim trim_by
setting_found l a v e k =
    let here : starts_with (codes "auto_download") (strip_end is_space (skip_while is_space a))
        ≡ true =
      ap (starts_with (codes "auto_download")) k ∙ starts_with_refl (codes "auto_download") in
    let in_key : starts_with (codes "auto_download") a ≡ true =
      subst (λ s. starts_with (codes "auto_download") s ≡ true) (key_starts l a v e)
        (strip_end-prefix is_space (codes "auto_download") (skip_while is_space a) here) in
    strip_end-prefix is_space (codes "auto_download") (skip_while is_space l) (
      cut_at-prefix b'=' (codes "auto_download") (strip_end is_space (skip_while is_space l)) a v e
        in_key)

-- A line that both readers keep: neither the setting nor the section changes.
pair_keeps :
    (l section : Bytes) (o : Option (Bytes × Bytes)) (st : IniState)
    → cut_at b'=' (trim l) ≡ o
    → skip_while is_space l ≡ skip_while is_indent l
    → is_setting section l ≡ false
    → st.section ≡ section
    → (find_setting key (put_pair o st).kv ≡ find_setting key st.kv)
      × ((put_pair o st).section ≡ section)
unfolding find_setting
pair_keeps l section none st e r n s = (refl, s)
pair_keeps l section (some (a, v)) st e r n s =
    elim (Bool-cases (str_eq (st.section ++ (b'.' ∷ trim a)) key)) [
      | inl same ↦
          let parts : (st.section ≡ codes "symbols") × (trim a ≡ codes "auto_download") =
            split_unique b'.' st.section (trim a) (codes "symbols") (codes "auto_download")
              (refl, (refl, (refl, (refl, (refl, (refl, (refl, tt)))))))
              (
                refl,
                (
                  refl,
                  (
                    refl,
                    (
                      refl,
                      (refl, (refl, (refl, (refl, (refl, (refl, (refl, (refl, (refl, tt))))))))),
                    ),
                  ),
                ),
              )
              ((str_eq_iff (st.section ++ (b'.' ∷ trim a)) key).0 same) in
          let found : starts_with (codes "auto_download") (skip_while is_indent l) ≡ true =
            subst (λ x. starts_with (codes "auto_download") x ≡ true) r
              (setting_found l a v e parts.1) in
          let here : str_eq section (codes "symbols") ≡ true =
            (str_eq_iff section (codes "symbols")).1 (sym s ∙ parts.0) in
          absurd (ground (arith, n, found, here))
      | inr other ↦ (rw other refl, s)
    ]

pub line_keeps :
    (l section : Bytes) (st : IniState)
    → IsRegular l
    → opened_section l ≡ none
    → is_setting section l ≡ false
    → st.section ≡ section
    → (find_setting key (read_ini_line l st).kv ≡ find_setting key st.kv)
      × ((read_ini_line l st).section ≡ section)
unfolding read_ini_line
line_keeps l section st r o n s =
    let t : Bytes = trim l in
    elim (Bool-cases (is_empty t || begins (λ c. c == b';') t || begins (λ c. c == b'#') t)) [
      | inl e ↦ rw e (refl, s)
      | inr e ↦ rw (e, r.1, o) (pair_keeps l section (cut_at b'=' t) st refl r.0 n s)
    ]

-- A line that opens a section is no comment.
header_is_text :
    (t name : Bytes)
    → header t ≡ some name
    → (is_empty t || begins (λ c. c == b';') t || begins (λ c. c == b'#') t) ≡ false
unfolding header
header_is_text [] name h = cc
header_is_text (c ∷ t) name h = elim (Bool-cases (c == b'[')) [
  | inl e ↦ ground (arith, e)
  | inr e ↦ absurd (ground (arith, e, h))
]

pub line_opens :
    (l name : Bytes) (st : IniState)
    → IsRegular l
    → opened_section l ≡ some name
    → read_ini_line l st ≡ record st { section = name }
unfolding read_ini_line
line_opens l name st r o =
    let h : header (trim l) ≡ some name = r.1 ∙ o in rw (header_is_text (trim l) name h, h) refl
