-- ===== src/Session/RoundTrip.antt =====
-- src/snapshot/SessionHistory.cpp: the file that a session leaves is read back.
use redscope.Base.{
  ℕ, ◌<◌, ◌≡◌, refl, sym, ap, ◌∙◌, inl, inr, true, false, List, [], ◌∷◌, ◌++◌, append-nil,
  append_assoc, arith, ◌==◌, Bool-cases, Bytes, str_eq, str_eq_refl, FreeOf, FreeOf-append, All,
}
use redscope.Base.Int.{ℤ}
use redscope.Base.Sort.{sort}
use redscope.Format.{decimal_ℤ}
use redscope.Format.Decimal.{IsInt64, decimal-FreeOf, strtoll-decimal}
use redscope.Stream.{is_empty, getlines, cut_at, starts_with}
use redscope.Stream.Laws.{getlines-line, cut_at-append, starts_with-append}
use redscope.Session.{ModSnapshot, by_name, sort_by_name}
use redscope.Session.Diff.{All-sort}
use redscope.Session.Ordered.{named_only, sort-Ordered, sort_id, named_only-Ordered}
use redscope.Session.File.{
  PriorSession, saved, unparsed, magic, stamp_tag, finish_read, drop_cr, read_line, read_lines,
  read_all, read_session_previous, write_mods, write_session_previous,
}

drop_cr-free : (s : Bytes) → FreeOf 13 s → drop_cr s ≡ s
unfolding drop_cr
drop_cr-free [] h = refl
drop_cr-free (c ∷ []) h = rw h.0 refl
drop_cr-free (c ∷ d ∷ s) h = ap (◌∷◌ c) (drop_cr-free (d ∷ s) h.1)

drop_cr-append :
    (a : Bytes) (c : ℕ) (b : Bytes)
    → (c == 13) ≡ false
    → drop_cr (a ++ (c ∷ b)) ≡ a ++ (c ∷ drop_cr b)
unfolding drop_cr
drop_cr-append [] c [] h = rw h refl
drop_cr-append [] c (d ∷ b) h = refl
drop_cr-append (x ∷ []) c b h = ap (◌∷◌ x) (drop_cr-append [] c b h)
drop_cr-append (x ∷ y ∷ a) c b h = ap (◌∷◌ x) (drop_cr-append (y ∷ a) c b h)

-- A mod that the file can hold: no line break in it, no bar in its name, which does not begin like
-- a comment or like the line of the time, and no carriage return at its end.
abbrev pub IsSavable : ModSnapshot → Type 0
IsSavable m =
    FreeOf 10 m.name
    × FreeOf b'|' m.name
    × (starts_with (b'#' ∷ []) m.name ≡ false)
    × (starts_with stamp_tag m.name ≡ false)
    × FreeOf 10 m.version
    × (drop_cr m.version ≡ m.version)

tag-FreeOf : FreeOf b'|' stamp_tag
tag-FreeOf = (
  refl,
  (
    refl,
    (
      refl,
      (refl, (refl, (refl, (refl, (refl, (refl, (refl, (refl, (refl, (refl, (refl, tt))))))))))),
    ),
  ),
)

is_empty-append : (a : Bytes) (c : ℕ) (b : Bytes) → is_empty (a ++ (c ∷ b)) ≡ false
is_empty-append [] c b = refl
is_empty-append (x ∷ a) c b = refl

read_line-mod :
    (m : ModSnapshot) (out : PriorSession)
    → is_empty m.name ≡ false
    → IsSavable m
    → read_line (m.name ++ (b'|' ∷ m.version)) out ≡ record out { mods = out.mods ++ (m ∷ []) }
unfolding read_line
read_line-mod m out n h =
    let plain : starts_with (b'#' ∷ []) (m.name ++ (b'|' ∷ m.version)) ≡ false =
      starts_with-append b'|' (b'#' ∷ []) m.name m.version (refl, tt) ∙ h.2 in
    let timeless : starts_with stamp_tag (m.name ++ (b'|' ∷ m.version)) ≡ false =
      starts_with-append b'|' stamp_tag m.name m.version tag-FreeOf ∙ h.3 in
    rw
      (
        is_empty-append m.name b'|' m.version,
        plain,
        timeless,
        cut_at-append b'|' m.name m.version h.1,
        n,
      )
      refl

read_lines-write_mods :
    (ms : List ModSnapshot) (out : PriorSession)
    → All IsSavable ms
    → read_lines (getlines (write_mods ms)) out ≡ record out { mods = out.mods ++ named_only ms }
unfolding write_mods read_lines getlines
read_lines-write_mods [] out h = ap (λ x. record out { mods = x }) (sym (append-nil out.mods))
read_lines-write_mods (m ∷ ms) out (s, h) = elim (Bool-cases (is_empty m.name)) [
  | inl e ↦ rw e (read_lines-write_mods ms out h)
  | inr e ↦ rw e (
      ap (λ t. read_lines (getlines t) out)
        (sym (append_assoc m.name (b'|' ∷ m.version) (10 ∷ write_mods ms)))
      ∙ ap (λ ls. read_lines ls out)
          (getlines-line (m.name ++ (b'|' ∷ m.version)) (write_mods ms)
            (FreeOf-append 10 m.name (b'|' ∷ m.version) s.0 (refl, s.4)))
      ∙ ap (λ l. read_lines (getlines (write_mods ms)) (read_line l out))
          (drop_cr-append m.name b'|' m.version refl ∙ ap (λ v. m.name ++ (b'|' ∷ v)) s.5)
      ∙ ap (read_lines (getlines (write_mods ms))) (read_line-mod m out e s)
      ∙ read_lines-write_mods ms (record out { mods = out.mods ++ (m ∷ []) }) h
      ∙ ap (λ x. record out { mods = x }) (append_assoc out.mods (m ∷ []) (named_only ms)))
]

stamp-FreeOf : (b : ℕ) (t : ℤ) → FreeOf b stamp_tag → b < b'-' → FreeOf b (stamp_tag ++ decimal_ℤ t)
stamp-FreeOf b t h k = FreeOf-append b stamp_tag (decimal_ℤ t) h (decimal-FreeOf b t k)

read_line-stamp :
    (t : ℤ) (out : PriorSession)
    → IsInt64 t
    → read_line (drop_cr (stamp_tag ++ decimal_ℤ t)) out ≡ record out { timestamp_unix = t }
unfolding read_line cut_at starts_with
read_line-stamp t out h =
    ap (λ l. read_line l out)
      (drop_cr-free (stamp_tag ++ decimal_ℤ t) (
        stamp-FreeOf 13 t
          (
            refl,
            (
              refl,
              (
                refl,
                (
                  refl,
                  (
                    refl,
                    (refl, (refl, (refl, (refl, (refl, (refl, (refl, (refl, (refl, tt))))))))),
                  ),
                ),
              ),
            ),
          )
          (omega arith)))
    ∙ ap (λ z. record out { timestamp_unix = z }) (strtoll-decimal t h)

-- The lines of the file.
getlines-write :
    (t : ℤ) (ms : Bytes)
    → getlines (magic ++ (10 ∷ stamp_tag ++ decimal_ℤ t ++ (10 ∷ ms)))
      ≡ magic ∷ (stamp_tag ++ decimal_ℤ t) ∷ getlines ms
getlines-write t ms =
    getlines-line magic (stamp_tag ++ decimal_ℤ t ++ (10 ∷ ms)) (
      refl,
      (
        refl,
        (
          refl,
          (
            refl,
            (
              refl,
              (
                refl,
                (
                  refl,
                  (
                    refl,
                    (
                      refl,
                      (
                        refl,
                        (
                          refl,
                          (
                            refl,
                            (
                              refl,
                              (
                                refl,
                                (
                                  refl,
                                  (
                                    refl,
                                    (
                                      refl,
                                      (
                                        refl,
                                        (
                                          refl,
                                          (
                                            refl,
                                            (
                                              refl,
                                              (
                                                refl,
                                                (refl, (refl, (refl, (refl, (refl, (refl, tt)))))),
                                              ),
                                            ),
                                          ),
                                        ),
                                      ),
                                    ),
                                  ),
                                ),
                              ),
                            ),
                          ),
                        ),
                      ),
                    ),
                  ),
                ),
              ),
            ),
          ),
        ),
      ),
    )
    ∙ ap (◌∷◌ magic) (
        ap getlines (sym (append_assoc stamp_tag (decimal_ℤ t) (10 ∷ ms)))
        ∙ getlines-line (stamp_tag ++ decimal_ℤ t) ms (
            stamp-FreeOf 10 t
              (
                refl,
                (
                  refl,
                  (
                    refl,
                    (
                      refl,
                      (
                        refl,
                        (refl, (refl, (refl, (refl, (refl, (refl, (refl, (refl, (refl, tt))))))))),
                      ),
                    ),
                  ),
                ),
              )
              (omega arith)))

-- A session that leaves its file for the next is read back, with its time, and with its mods
-- sorted by name without those that have none: where the time is a number of 64 bits, and each mod
-- has no line break, a name without a bar that does not begin with `#` or `timestampUnix=`, and a
-- version that does not end in a carriage return.
pub read_session_previous-write_session_previous :
    (timestamp_unix : ℤ) (current : List ModSnapshot)
    → IsInt64 timestamp_unix
    → All IsSavable current
    → read_session_previous (saved (write_session_previous timestamp_unix current)) ≡ record {
      present = true;
      parsed_ok = true;
      timestamp_unix = timestamp_unix;
      mods = named_only (sort_by_name current);
    }
unfolding read_session_previous write_session_previous read_all read_lines sort_by_name
read_session_previous-write_session_previous t current h savable =
    let mods : List ModSnapshot = sort by_name current in
    let ordered : sort by_name (named_only mods) ≡ named_only mods =
      sort_id (named_only mods) (named_only-Ordered mods (sort-Ordered current)) in
    let same : str_eq (drop_cr magic) magic ≡ true = str_eq_refl magic in
    ap read_all (getlines-write t (write_mods mods))
    ∙ rw same (
        ap (λ out. finish_read (read_lines (getlines (write_mods mods)) out))
          (read_line-stamp t unparsed h)
        ∙ ap finish_read (
            read_lines-write_mods mods (record unparsed { timestamp_unix = t })
              (All-sort IsSavable current savable))
        ∙ ap (λ x. record { present = true; parsed_ok = true; timestamp_unix = t; mods = x })
            ordered)
