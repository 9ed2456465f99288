-- ===== src/Config/Examples.antt =====
-- Tests of the settings, and concrete instances of what is proved about them.
use redscope.Base.{◌≡◌, refl, true, false, some, [], ◌∷◌, ◌++◌, Bytes, str_eq, All, codes}
use redscope.Stream.{getlines, trim_by}
use redscope.Config.{parse_uint, parse_uint_clamped, trim, header, load_config}
use redscope.Config.Bounds.{InRange, load_config-InRange}
use redscope.Config.AutoDownload.{opened_section, write_auto_download}
use redscope.Config.AutoDownload.Lines.{IsRegular}
use redscope.Config.AutoDownload.RoundTrip.{load_config-write_auto_download}

clamped_small : parse_uint_clamped (codes " 3") 32 4 4096 ≡ 4
unfolding parse_uint_clamped
clamped_small = refl

too_large : parse_uint (codes "4294967296") 45 ≡ 45
unfolding parse_uint
too_large = refl

negative : parse_uint (codes " -1") 45 ≡ 45
unfolding parse_uint
negative = refl

abbrev ini : Bytes
ini =
    codes "[core]"
    ++ (10 ∷ codes "max_crash_files = 0"
        ++ (10 ∷ codes "[symbols]" ++ (10 ∷ codes " auto_download=no" ++ (10 ∷ []))))

files_clamped : (load_config (some ini)).max_crash_files ≡ 1
unfolding load_config trim_by str_eq
files_clamped = refl

load_config-InRange_example : InRange (load_config (some ini))
load_config-InRange_example = load_config-InRange (some ini)

ini-AreRegular : All IsRegular (getlines ini)
unfolding getlines trim header opened_section trim_by
ini-AreRegular = ((refl, refl), ((refl, refl), ((refl, refl), ((refl, refl), tt))))

load_config-write_auto_download_example :
    (load_config (some (write_auto_download true ini))).symbols_auto_download ≡ true
load_config-write_auto_download_example = load_config-write_auto_download true ini ini-AreRegular

-- Where a comment follows the header, the writer changes the line and the reader does not see it.
abbrev commented_ini : Bytes
commented_ini = codes "[symbols] ; keys" ++ (10 ∷ codes "auto_download = false" ++ (10 ∷ []))

comment_hides :
    (load_config (some (write_auto_download true commented_ini))).symbols_auto_download ≡ false
unfolding load_config write_auto_download trim_by str_eq
comment_hides = refl
