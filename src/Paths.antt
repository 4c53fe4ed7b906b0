-- ===== src/Paths.antt =====
-- Paths as texts, and the search for a program: `find_binary` of nexpackd/src/mount.rs, `find_bwrap`
-- and `find_nexpackd_in_path` of nxpk/src/commands/run.rs, `find_tool` of
-- nxpk/src/commands/compat.rs and of sign.rs. What is on disk and in `PATH` is a parameter.
use nexpack.Prelude.{
  Bool, true, false, ◌==◌, Option, none, some, List, [], ◌∷◌, ◌++◌, map, last?, Text, codes,
  Outcome, ok_or, other, All, ◌≡◌, refl, ap, Bool-cases, inl, inr, if◌then◌else◌,
}

abbrev pub starts_at_root : Text → Bool
starts_at_root [] = false
starts_at_root (c ∷ t) = c == b'/'

-- What stands between a folder and a name.
abbrev pub separator : Text → Text
separator dir = elim (last? dir) [ none ↦ [] | some c ↦ if c == b'/' then [] else b'/' ∷ [] ]

-- `Path::join`
unfoldable pub join : Text → Text → Text
join dir name = if starts_at_root name then name else dir ++ (separator dir ++ name)

pub record Files : Type 0 where
  -- the folders of `PATH`, and the entries of `/nix/store` in the order in which they are read
  pub path_dirs : List Text
  pub store_entries : List Text
  pub is_file : Text → Bool
  -- the folder of the program that runs
  pub exe_dir : Option Text

unfoldable pub first_file : Files → List Text → Option Text
first_file files [] = none
first_file files (path ∷ paths) = if files.is_file path then some path else first_file files paths

abbrev pub in_path : Files → Text → List Text
in_path files name = map (λ dir. join dir name) files.path_dirs

abbrev pub in_store : Files → Text → List Text
in_store files name = map (λ entry. join (join entry (codes "bin")) name) files.store_entries

unfoldable pub find_binary : Files → Text → Outcome Text
unfolding first_file join
find_binary files name =
    ok_or
      (first_file files
        (in_path files name ++ (in_store files name ++ (join (codes "/usr/libexec") name ∷ []))))
      (other "not found. Install appropriate package")

unfoldable pub find_bwrap : Files → Outcome Text
unfolding first_file join
find_bwrap files =
    ok_or (first_file files (in_path files (codes "bwrap"))) (other "bwrap not found in PATH")

unfoldable pub find_nexpackd_in_path : Files → Outcome Text
unfolding first_file join
find_nexpackd_in_path files =
    ok_or
      (first_file files (
        in_path files (codes "nexpackd")
        ++ (elim files.exe_dir [ none ↦ [] | some dir ↦ join dir (codes "nexpackd") ∷ [] ])))
      (other "nexpackd not found in PATH or next to nxpk binary")

-- `find_tool` of nxpk/src/commands/sign.rs, which goes by `PATH` alone.
unfoldable pub find_in_path : Files → Text → Option Text
unfolding first_file join
find_in_path files name = first_file files (in_path files name)

unfoldable pub find_tool : Files → Text → Option Text
unfolding first_file join
find_tool files name = first_file files (in_path files name ++ in_store files name)

-- The candidates before the one that is found, and that one.
pub first_file-eq-some :
    (files : Files) (paths : List Text) (found : Text)
    → first_file files paths ≡ some found
    → (files.is_file found ≡ true)
      × ((before after : List Text) × (paths ≡ before ++ (found ∷ after))
          × All (λ p. files.is_file p ≡ false) before)
unfolding first_file
first_file-eq-some files [] found h = absurd cc
first_file-eq-some files (path ∷ paths) found h = elim (Bool-cases (files.is_file path)) [
  | inl here ↦
      let same : path ≡ found = (let h' = rw here at h in cc) in
      (rw same at here, ([], paths, rw same refl, tt))
  | inr not_here ↦
      let (there, (before, after, cut, earlier)) =
        first_file-eq-some files paths found (rw not_here at h) in
      (there, (path ∷ before, after, ap (λ l. path ∷ l) cut, (not_here, earlier)))
]
