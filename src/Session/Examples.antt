-- ===== src/Session/Examples.antt =====
-- Tests of the difference of two sessions, and its theorem at concrete lists.
use redscope.Base.{ℕ, ◌≡◌, refl, ap, true, false, List, [], ◌∷◌, arith, Bytes, get_or, All, codes}
use redscope.Session.{ModSnapshot, sort_by_name, compute_mod_diff}
use redscope.Session.Rounds.{reference}
use redscope.Base.Int.{pos}
use redscope.Session.File.{saved, absent, drop_cr, read_session_previous, write_session_previous}
use redscope.Stream.{starts_with}
use redscope.Session.Ordered.{named_only}
use redscope.Session.RoundTrip.{IsSavable, read_session_previous-write_session_previous}
use redscope.Session.Diff.{compute_mod_diff-reference}

abbrev named : Bytes → Bytes → ModSnapshot
named n v = record { name = n; version = v }

abbrev second : Bytes → ℕ
second s = get_or s 1 0

abbrev prior_mods : List ModSnapshot
prior_mods = named (codes "cet") (codes "1.0") ∷ named (codes "axl") (codes "2") ∷ []

abbrev current_mods : List ModSnapshot
current_mods = named (codes "tweak") [] ∷ named (codes "cet") (codes "1.1") ∷ []

compute_mod_diff-reference_example :
    compute_mod_diff prior_mods current_mods
    ≡ reference (sort_by_name prior_mods) (sort_by_name current_mods)
compute_mod_diff-reference_example =
    compute_mod_diff-reference prior_mods current_mods
      (((λ e. absurd (omega (arith, ap second e))), tt), (tt, tt))
      (((λ e. absurd (omega (arith, ap second e))), tt), (tt, tt))

prior_mods-IsSavable : All IsSavable prior_mods
unfolding starts_with drop_cr
prior_mods-IsSavable = (
  (
    (refl, (refl, (refl, tt))),
    (refl, (refl, (refl, tt))),
    refl,
    refl,
    (refl, (refl, (refl, tt))),
    refl,
  ),
  (((refl, (refl, (refl, tt))), (refl, (refl, (refl, tt))), refl, refl, (refl, tt), refl), tt),
)

read_session_previous-write_session_previous_example :
    read_session_previous (saved (write_session_previous (pos 17) prior_mods)) ≡ record {
      present = true;
      parsed_ok = true;
      timestamp_unix = pos 17;
      mods = named_only (sort_by_name prior_mods);
    }
read_session_previous-write_session_previous_example =
    read_session_previous-write_session_previous (pos 17) prior_mods (omega arith)
      prior_mods-IsSavable

no_file : (read_session_previous absent).present ≡ false
unfolding read_session_previous
no_file = refl
