-- ===== src/Config/AutoDownload/RoundTrip.antt =====
-- src/breadcrumbs/BreadcrumbApi.cpp against src/Config.cpp: the setting that was written is read.
use redscope.Base.{
  ◌≡◌, refl, ap, ◌∙◌, ◌⊎◌, inl, inr, Bool, true, false, ◌&&◌, Option, none, some, List, [], ◌∷◌,
  ◌++◌, append-nil, if◌then◌else◌, Bool-cases, Option-cases, Bytes, str_eq, str_eq_iff, str_eq_refl,
  FreeOf, All, All-append, codes,
}
use redscope.Stream.{getlines, starts_with, skip_while, strip_end, trim_by}
use redscope.Stream.Laws.{getlines-line, getlines-FreeOf}
use redscope.Config.{
  trim, parse_bool, IniState, header, read_ini_line, read_ini, no_settings, find_setting, bool_or,
  config_of, load_config,
}
use redscope.Config.AutoDownload.{
  is_indent, new_line, opened_section, is_setting, change_line, next_section, change_lines, is_done,
  put_lines, write_auto_download,
}
use redscope.Config.AutoDownload.Lines.{IsRegular, key, word, read_new_line, line_keeps, line_opens}

setting_section : (section l : Bytes) → is_setting section l ≡ true → section ≡ codes "symbols"
setting_section section l e = (str_eq_iff section (codes "symbols")).0 (
    left (str_eq section (codes "symbols"))
      (starts_with (codes "auto_download") (skip_while is_indent l)) e)
  where
    left : (a b : Bool) → (a && b) ≡ true → a ≡ true
    left true b e = refl
    left false b e = e

find_new :
    (b : Bool) (kv : List (Bytes × Bytes)) → find_setting key ((key, word b) ∷ kv) ≡ some (word b)
unfolding find_setting
find_new b kv = rw (str_eq_refl key) refl

-- The setting is found, or is still to be changed.
abbrev IsPending : Bool → List Bytes → Bytes → IniState → Type 0
IsPending b ls section st = (find_setting key st.kv ≡ some (word b)) ⊎ (is_done ls section ≡ true)

header-IsPending :
    (b : Bool) (l : Bytes) (ls : List Bytes) (section name : Bytes) (st : IniState)
    → opened_section l ≡ some name
    → IsPending b (l ∷ ls) section st
    → IsPending b ls name (record st { section = name })
unfolding is_done
header-IsPending b l ls section name st o (inl h) = inl h
header-IsPending b l ls section name st o (inr h) = inr (rw o at h)

kept-IsPending :
    (b : Bool) (l : Bytes) (ls : List Bytes) (section : Bytes) (st st' : IniState)
    → opened_section l ≡ none
    → is_setting section l ≡ false
    → find_setting key st'.kv ≡ find_setting key st.kv
    → IsPending b (l ∷ ls) section st
    → IsPending b ls section st'
unfolding is_done
kept-IsPending b l ls section st st' o e k (inl h) = inl (k ∙ h)
kept-IsPending b l ls section st st' o e k (inr h) = inr (rw (o, e) at h)

none_changed : (section : Bytes) → is_done [] section ≡ true → ⊥
unfolding is_done
none_changed section h = cc

-- A setting that is pending is found at the end.
change_lines-found :
    (b : Bool) (ls : List Bytes) (section : Bytes) (st : IniState)
    → All IsRegular ls
    → st.section ≡ section
    → IsPending b ls section st
    → find_setting key (read_ini (change_lines b ls section) st).kv ≡ some (word b)
unfolding read_ini change_lines
change_lines-found b [] section st r s (inl h) = h
change_lines-found b [] section st r s (inr h) = absurd (none_changed section h)
change_lines-found b (l ∷ ls) section st r s h = elim (Option-cases (opened_section l)) [
  | inr (name, o) ↦ rw o (
      ap (λ x. find_setting key (read_ini (change_lines b ls name) x).kv)
        (line_opens l name st r.0 o)
      ∙ change_lines-found b ls name (record st { section = name }) r.1 refl
          (header-IsPending b l ls section name st o h))
  | inl o ↦ elim (Bool-cases (is_setting section l)) [
    | inl e ↦
        rw (o, e)
          (ap (λ x. find_setting key (read_ini (change_lines b ls section) x).kv)
              (read_new_line b st (s ∙ setting_section section l e))
            ∙ change_lines-found b ls section (record st { kv = (key, word b) ∷ st.kv }) r.1 s
                (inl (find_new b st.kv)))
    | inr e ↦
        let keeps = line_keeps l section st r.0 o e s in
        rw (o, e)
          (change_lines-found b ls section (read_ini_line l st) r.1 keeps.1
            (kept-IsPending b l ls section st (read_ini_line l st) o e keeps.0 h))
  ]
]

read_ini-append :
    (xs ys : List Bytes) (st : IniState) → read_ini (xs ++ ys) st ≡ read_ini ys (read_ini xs st)
unfolding read_ini
read_ini-append [] ys st = refl
read_ini-append (x ∷ xs) ys st = read_ini-append xs ys (read_ini_line x st)

getlines-put_lines : (ls : List Bytes) → All (FreeOf 10) ls → getlines (put_lines ls) ≡ ls
unfolding put_lines getlines
getlines-put_lines [] h = refl
getlines-put_lines (l ∷ ls) h =
    getlines-line l (put_lines ls) h.0 ∙ ap (◌∷◌ l) (getlines-put_lines ls h.1)

new_line-FreeOf : (b : Bool) → FreeOf 10 (new_line b)
new_line-FreeOf true = (
  refl,
  (
    refl,
    (
      refl,
      (
        refl,
        (
          refl,
          (
            refl,
            (
              refl,
              (
                refl,
                (
                  refl,
                  (
                    refl,
                    (
                      refl,
                      (refl, (refl, (refl, (refl, (refl, (refl, (refl, (refl, (refl, tt))))))))),
                    ),
                  ),
                ),
              ),
            ),
          ),
        ),
      ),
    ),
  ),
)
new_line-FreeOf false = (
  refl,
  (
    refl,
    (
      refl,
      (
        refl,
        (
          refl,
          (
            refl,
            (
              refl,
              (
                refl,
                (
                  refl,
                  (
                    refl,
                    (
                      refl,
                      (
                        refl,
                        (refl, (refl, (refl, (refl, (refl, (refl, (refl, (refl, (refl, tt))))))))),
                      ),
                    ),
                  ),
                ),
              ),
            ),
          ),
        ),
      ),
    ),
  ),
)

change_line-FreeOf :
    (b : Bool) (o : Option Bytes) (section l : Bytes)
    → FreeOf 10 l
    → FreeOf 10 (change_line b o section l)
change_line-FreeOf b (some name) section l h = h
change_line-FreeOf b none section l h = elim (Bool-cases (is_setting section l)) [
  | inl e ↦ rw e (new_line-FreeOf b)
  | inr e ↦ rw e h
]

change_lines-FreeOf :
    (b : Bool) (ls : List Bytes) (section : Bytes)
    → All (FreeOf 10) ls
    → All (FreeOf 10) (change_lines b ls section)
unfolding change_lines
change_lines-FreeOf b [] section h = tt
change_lines-FreeOf b (l ∷ ls) section h = (
  change_line-FreeOf b (opened_section l) section l h.0,
  change_lines-FreeOf b ls (next_section (opened_section l) section) h.1,
)

-- The two lines that are put behind the others.
opens :
    (st : IniState) → read_ini_line (codes "[symbols]") st ≡ record st { section = codes "symbols" }
unfolding read_ini_line trim header trim_by skip_while strip_end
opens st = refl

added-found :
    (b : Bool) (st : IniState)
    → find_setting key (read_ini (codes "[symbols]" ∷ new_line b ∷ []) st).kv ≡ some (word b)
unfolding read_ini
added-found b st =
    ap (λ x. find_setting key (read_ini_line (new_line b) x).kv) (opens st)
    ∙ ap (λ (x : IniState). find_setting key x.kv)
        (read_new_line b (record st { section = codes "symbols" }) refl)
    ∙ find_new b st.kv

-- The lines that are written.
abbrev written_lines : Bool → List Bytes → List Bytes
written_lines b lines =
    change_lines b lines []
    ++ (if is_done lines [] then [] else codes "[symbols]" ∷ new_line b ∷ [])

written_lines-FreeOf :
    (b : Bool) (lines : List Bytes)
    → All (FreeOf 10) lines
    → All (FreeOf 10) (written_lines b lines)
written_lines-FreeOf b lines h = elim (Bool-cases (is_done lines [])) [
  | inl e ↦ rw (e, append-nil (change_lines b lines [])) (change_lines-FreeOf b lines [] h)
  | inr e ↦ rw e (
      All-append (FreeOf 10) (change_lines b lines []) (codes "[symbols]" ∷ new_line b ∷ [])
        (change_lines-FreeOf b lines [] h)
        (
          (refl, (refl, (refl, (refl, (refl, (refl, (refl, (refl, (refl, tt))))))))),
          (new_line-FreeOf b, tt),
        ))
]

written_lines-found :
    (b : Bool) (lines : List Bytes)
    → All IsRegular lines
    → find_setting key (read_ini (written_lines b lines) no_settings).kv ≡ some (word b)
written_lines-found b lines r = elim (Bool-cases (is_done lines [])) [
  | inl e ↦
      rw (e, append-nil (change_lines b lines []))
        (change_lines-found b lines [] no_settings r refl (inr e))
  | inr e ↦ rw e (
      ap (λ (x : IniState). find_setting key x.kv)
        (read_ini-append (change_lines b lines []) (codes "[symbols]" ∷ new_line b ∷ [])
          no_settings)
      ∙ added-found b (read_ini (change_lines b lines []) no_settings))
]

parse_word : (b : Bool) → parse_bool (word b) false ≡ b
unfolding parse_bool str_eq
parse_word true = refl
parse_word false = refl

-- Where both readers agree on each line of the file, the settings that are loaded after the setting
-- was written hold what was written.
pub load_config-write_auto_download :
    (enabled : Bool) (text : Bytes)
    → All IsRegular (getlines text)
    → (load_config (some (write_auto_download enabled text))).symbols_auto_download ≡ enabled
unfolding load_config config_of write_auto_download
load_config-write_auto_download enabled text r =
    let lines : List Bytes = getlines text in
    ap (λ ls. bool_or (find_setting key (read_ini ls no_settings).kv) false)
      (getlines-put_lines (written_lines enabled lines)
        (written_lines-FreeOf enabled lines (getlines-FreeOf text)))
    ∙ ap (λ o. bool_or o false) (written_lines-found enabled lines r)
    ∙ parse_word enabled
