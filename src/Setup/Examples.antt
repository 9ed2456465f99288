-- ===== src/Setup/Examples.antt =====
-- Tests of the checks of an installation.
use redscope.Base.{◌≡◌, refl, true, false, [], ◌∷◌, codes}
use redscope.Format.{decimal, digits_onto}
use redscope.Inventory.{InstalledMod, ModInventory, cet, mo2}
use redscope.Setup.{
  LooseFileReport, count_mods, add_issue, loose_issues, sample_from, sample_of,
  compute_setup_integrity,
}

abbrev cet_mod : InstalledMod
cet_mod = record {
  name = codes "a";
  version = [];
  subpath = [];
  archives = [];
  type = cet;
  enabled = true;
}

abbrev inventory : ModInventory
inventory = record {
  manager = mo2;
  manager_details = [];
  mods = cet_mod ∷ record cet_mod { enabled = false } ∷ [];
  truncated = 0;
}

abbrev loose : LooseFileReport
loose = record {
  manager = mo2;
  loose_count = 2;
  offenders = codes "x.dll" ∷ [];
  read_ok = true;
  mo2_unreliable = false;
}

-- One mod of Cyber Engine Tweaks without it, and two files of no mod.
two_issues :
    compute_setup_integrity inventory (record { cet = false; tweak_xl = false }) 0 loose ≡ record {
      issues =
          record {
            kind = codes "missing-framework";
            detail = codes "1 CET mod(s) installed but Cyber Engine Tweaks is not loaded.";
          }
          ∷ record {
            kind = codes "loose-files-mo2";
            detail =
                codes
                  "2 mod file(s) are in the game folder but not overlaid by any enabled mod in your MO2 modlist - leftover or manually-installed files: x.dll, ....";
          }
          ∷ [];
      truncated = 0;
    }
unfolding compute_setup_integrity count_mods add_issue loose_issues sample_from sample_of decimal
    digits_onto
two_issues = refl
