-- ===== src/CleanSlate/Plan/Spared.antt =====
-- src/cleanslate/CleanCore.cpp, `PlanFullClean`: the counters of the plan, and the files of the game that it
-- does not touch.
use redscope.Base.{
  ℕ, ◌+◌, ◌^◌, ◌≤◌, ◌<◌, ◌≡◌, refl, Bool, true, false, List, [], ◌∷◌, ◌++◌, arith, if◌then◌else◌,
  Bytes, str_eq, length, length-append, All, All-append,
}
use redscope.CleanSlate.{norm_rel, is_one_of, is_vanilla_baseline_file}
use redscope.CleanSlate.Plan.{
  RemovalItem, FullCleanReport, no_plan, put_dir, put_file, add_dirs, add_files, add_mods,
  add_configs, mod_folders, vortex_folders, loader_files, reshade_folders, enb_files,
  plan_full_clean,
}

-- No file of the game's own configuration.
unfoldable pub IsSpared : Bytes → Type 0
unfolding is_vanilla_baseline_file norm_rel
IsSpared rel = is_vanilla_baseline_file (norm_rel rel) ≡ false

abbrev pub count_dirs : List RemovalItem → ℕ
count_dirs [] = 0
count_dirs (i ∷ is) = (if i.is_dir then 1 else 0) + count_dirs is

count_dirs-append :
    (xs ys : List RemovalItem) → count_dirs (xs ++ ys) ≡ count_dirs xs + count_dirs ys
count_dirs-append [] ys = omega arith
count_dirs-append (x ∷ xs) ys = omega (arith, count_dirs-append xs ys)

pub record IsPlan (n : ℕ) (r : FullCleanReport) : Type 0 where
  pub sum : r.dirs + r.files ≡ length r.items
  pub folders : r.dirs ≡ count_dirs r.items
  pub few : length r.items ≤ n
  pub spared : All (λ i. IsSpared i.rel_path) r.items

put_dir-IsPlan :
    (n : ℕ) (sub reason : Bytes) (r : FullCleanReport)
    → n + 1 < 2 ^ 32
    → IsSpared sub
    → IsPlan n r
    → IsPlan (n + 1) (put_dir sub reason r)
unfolding put_dir
put_dir-IsPlan n sub reason r h s p =
    let item : RemovalItem = record { rel_path = sub; is_dir = true; reason = reason } in
    let more = length-append r.items (item ∷ []) in
    record {
      sum = omega (arith, h, p.sum, p.few, more);
      folders = omega (arith, h, p.sum, p.few, p.folders, count_dirs-append r.items (item ∷ []));
      few = omega (arith, p.few, more);
      spared = All-append _ r.items (item ∷ []) p.spared (s, tt);
    }

put_file-IsPlan :
    (n : ℕ) (sub reason : Bytes) (r : FullCleanReport)
    → n + 1 < 2 ^ 32
    → IsSpared sub
    → IsPlan n r
    → IsPlan (n + 1) (put_file sub reason r)
unfolding put_file
put_file-IsPlan n sub reason r h s p =
    let item : RemovalItem = record { rel_path = sub; is_dir = false; reason = reason } in
    let more = length-append r.items (item ∷ []) in
    record {
      sum = omega (arith, h, p.sum, p.few, more);
      folders = omega (arith, h, p.sum, p.few, p.folders, count_dirs-append r.items (item ∷ []));
      few = omega (arith, p.few, more);
      spared = All-append _ r.items (item ∷ []) p.spared (s, tt);
    }

larger : (n m : ℕ) (r : FullCleanReport) → n ≤ m → IsPlan n r → IsPlan m r
larger n m r h p = record {
  sum = p.sum;
  folders = p.folders;
  few = omega (arith, h, p.few);
  spared = p.spared;
}

unfoldable AllSpared : List (Bytes × Bytes) → Type 0
unfolding IsSpared
AllSpared xs = All (λ x. IsSpared x.0) xs

-- A choice between a plan and the plan as it was.
choose-IsPlan :
    (n : ℕ) (b : Bool) (q r : FullCleanReport)
    → (b ≡ true → IsPlan (n + 1) q)
    → IsPlan n r
    → IsPlan (n + 1) (if b then q else r)
choose-IsPlan n true q r h p = h refl
choose-IsPlan n false q r h p = larger n (n + 1) r (omega arith) p

unless-IsPlan :
    (n : ℕ) (b : Bool) (q r : FullCleanReport)
    → (b ≡ false → IsPlan (n + 1) q)
    → IsPlan n r
    → IsPlan (n + 1) (if b then r else q)
unless-IsPlan n true q r h p = larger n (n + 1) r (omega arith) p
unless-IsPlan n false q r h p = h refl

add_dirs-IsPlan :
    (n : ℕ) (exists : Bytes → Bool) (xs : List (Bytes × Bytes)) (r : FullCleanReport)
    → n + length xs < 2 ^ 32
    → AllSpared xs
    → IsPlan n r
    → IsPlan (n + length xs) (add_dirs exists xs r)
unfolding add_dirs AllSpared
add_dirs-IsPlan n exists [] r h s p = larger n (n + 0) r (omega arith) p
add_dirs-IsPlan n exists ((sub, reason) ∷ xs) r h s p =
    let one =
      choose-IsPlan n (exists sub) (put_dir sub reason r) r
        (λ e. put_dir-IsPlan n sub reason r (omega (arith, h)) s.0 p) p in
    larger (n + 1 + length xs) (n + length ((sub, reason) ∷ xs)) _ (omega arith)
      (add_dirs-IsPlan (n + 1) exists xs _ (omega (arith, h)) s.1 one)

add_files-IsPlan :
    (n : ℕ) (exists : Bytes → Bool) (xs : List (Bytes × Bytes)) (r : FullCleanReport)
    → n + length xs < 2 ^ 32
    → AllSpared xs
    → IsPlan n r
    → IsPlan (n + length xs) (add_files exists xs r)
unfolding add_files AllSpared
add_files-IsPlan n exists [] r h s p = larger n (n + 0) r (omega arith) p
add_files-IsPlan n exists ((sub, reason) ∷ xs) r h s p =
    let one =
      choose-IsPlan n (exists sub) (put_file sub reason r) r
        (λ e. put_file-IsPlan n sub reason r (omega (arith, h)) s.0 p) p in
    larger (n + 1 + length xs) (n + length ((sub, reason) ∷ xs)) _ (omega arith)
      (add_files-IsPlan (n + 1) exists xs _ (omega (arith, h)) s.1 one)

add_mods-IsPlan :
    (n : ℕ) (xs : List Bytes) (r : FullCleanReport)
    → n + length xs < 2 ^ 32
    → All IsSpared xs
    → IsPlan n r
    → IsPlan (n + length xs) (add_mods xs r)
unfolding add_mods
add_mods-IsPlan n [] r h s p = larger n (n + 0) r (omega arith) p
add_mods-IsPlan n (rel ∷ xs) r h s p =
    larger (n + 1 + length xs) (n + length (rel ∷ xs)) _ (omega arith) (
      add_mods-IsPlan (n + 1) xs _ (omega (arith, h)) s.1
        (put_dir-IsPlan n rel _ r (omega (arith, h)) s.0 p))

add_configs-IsPlan :
    (n : ℕ) (xs : List Bytes) (r : FullCleanReport)
    → n + length xs < 2 ^ 32
    → IsPlan n r
    → IsPlan (n + length xs) (add_configs xs r)
unfolding add_configs IsSpared
add_configs-IsPlan n [] r h p = larger n (n + 0) r (omega arith) p
add_configs-IsPlan n (rel ∷ xs) r h p =
    larger (n + 1 + length xs) (n + length (rel ∷ xs)) _ (omega arith) (
      add_configs-IsPlan (n + 1) xs _ (omega (arith, h)) (
        unless-IsPlan n (is_vanilla_baseline_file (norm_rel rel)) (put_file rel _ r) r
          (λ e. put_file-IsPlan n rel _ r (omega (arith, h)) e p) p))

listed_spared :
    AllSpared mod_folders
    × AllSpared vortex_folders
    × AllSpared loader_files
    × AllSpared reshade_folders
    × AllSpared enb_files
unfolding AllSpared IsSpared is_vanilla_baseline_file norm_rel is_one_of str_eq
listed_spared = (
  (refl, (refl, (refl, (refl, (refl, (refl, (refl, tt))))))),
  (refl, tt),
  (refl, (refl, (refl, (refl, (refl, (refl, (refl, (refl, (refl, tt))))))))),
  (refl, (refl, (refl, tt))),
  (refl, (refl, (refl, (refl, tt)))),
)

-- Whatever exists: the plan counts each item once, the folders as folders and the others as files; it has
-- at most 24 items beside the folders of mods and the configuration files that it is given, and it lists no
-- file of the game's own configuration, if none of the folders of mods has such a path.
pub plan_full_clean-IsPlan :
    (exists : Bytes → Bool) (mods configs : List Bytes)
    → length mods + length configs + 24 < 2 ^ 32
    → All IsSpared mods
    → IsPlan (length mods + length configs + 24) (plan_full_clean exists mods configs)
unfolding plan_full_clean
plan_full_clean-IsPlan exists mods configs h s =
    let m = length mods in
    let p0 : IsPlan 0 no_plan = record {
      sum = refl;
      folders = refl;
      few = omega arith;
      spared = tt;
    } in
    let p1 = add_dirs-IsPlan 0 exists mod_folders no_plan (omega arith) listed_spared.0 p0 in
    let p2 = add_mods-IsPlan (0 + 7) mods _ (omega (arith, h)) s p1 in
    let p3 =
      add_dirs-IsPlan (0 + 7 + m) exists vortex_folders _ (omega (arith, h)) listed_spared.1 p2 in
    let p4 =
      add_files-IsPlan (0 + 7 + m + 1) exists loader_files _ (omega (arith, h)) listed_spared.2
        p3 in
    let p5 =
      add_dirs-IsPlan (0 + 7 + m + 1 + 9) exists reshade_folders _ (omega (arith, h))
        listed_spared.3 p4 in
    let p6 =
      add_files-IsPlan (0 + 7 + m + 1 + 9 + 3) exists enb_files _ (omega (arith, h)) listed_spared.4
        p5 in
    larger (0 + 7 + m + 1 + 9 + 3 + 4 + length configs) (m + length configs + 24) _ (omega arith)
      (add_configs-IsPlan (0 + 7 + m + 1 + 9 + 3 + 4) configs _ (omega (arith, h)) p6)
