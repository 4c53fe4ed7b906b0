-- ===== src/Compat/Walk.antt =====
-- `walk_files` of nxpk/src/commands/compat.rs: the files below a folder, found with a stack of
-- folders. Links are followed, so the same folder may be reached by several paths, or from within
-- itself; the file system is a parameter.
use nexpack.Prelude.{
  ℕ, zero, suc, ◌+◌, ◌-◌, ◌≤◌, ◌<◌, ◌≡◌, refl, sym, ap, subst, ◌∙◌, Bool, true, false, ◌||◌,
  Bool-cases, inl, inr, Option, none, some, List, [], ◌∷◌, ◌++◌, length, length-append, All, Text,
  arith, if◌then◌else◌,
}
use nexpack.Paths.{join, starts_at_root, separator}
use nexpack.Compat.Convert.{any_of}

pub record Folders : Type 0 where
  -- `path.is_dir()`
  pub is_dir : Text → Bool
  -- the names that `read_dir` gives; `none` if it fails
  pub read_dir : Text → Option (List Text)
  -- the length of a path from which on the system refuses it
  pub path_max : ℕ

module _ (folders : Folders) where
  abbrev pub names_of : Text → List Text
  names_of dir = elim (folders.read_dir dir) [ none ↦ [] | some names ↦ names ]

  -- Where the path of an entry goes: `stack` and `files` after it. The top of the stack is the head
  -- of the list.
  abbrev pub placed : Text → List Text → List Text → List Text × List Text
  placed path stack files =
      if folders.is_dir path then (path ∷ stack, files) else (stack, files ++ (path ∷ []))

  -- The loop over the entries of one folder.
  unfoldable pub visit : Text → List Text → List Text → List Text → List Text × List Text
  unfolding join
  visit dir [] stack files = (stack, files)
  visit dir (name ∷ names) stack files =
      let now = placed (join dir name) stack files in visit dir names now.0 now.1

  -- `while let Some(current) = stack.pop()`; `none` if the rounds do not suffice.
  unfoldable pub walk : ℕ → List Text → List Text → Option (List Text)
  unfolding visit
  walk rounds [] files = some files
  walk zero (dir ∷ stack) files = none
  walk (suc rounds) (dir ∷ stack) files =
      let after = visit dir (names_of dir) stack files in walk rounds after.0 after.1

  abbrev sum_folders : (Text → ℕ) → Text → List Text → ℕ
  sum_folders count dir [] = 0
  sum_folders count dir (name ∷ names) =
      let rest = sum_folders count dir names in
      if folders.is_dir (join dir name) then count (join dir name) + rest else rest

  -- The paths of folders of at most so many steps, this folder's included.
  unfoldable pub folders_within : ℕ → Text → ℕ
  unfolding join
  folders_within zero dir = 0
  folders_within (suc k) dir = 1 + sum_folders (λ p. folders_within k p) dir (names_of dir)

  -- The steps that a path can have before it is refused.
  abbrev pub steps_left : Text → ℕ
  steps_left dir = suc (folders.path_max - length dir)

  unfoldable pub walk_files : Text → Option (List Text)
  unfolding walk folders_within
  walk_files dir = walk (folders_within (steps_left dir) dir) (dir ∷ []) []

-- A name in a folder is not empty and has no slash in front.
abbrev pub IsEntryName : Text → Type 0
IsEntryName name = (1 ≤ length name) × (starts_at_root name ≡ false)

-- The system refuses long paths, and its entries have names.
pub record IsFileSystem (folders : Folders) : Type 0 where
  pub refuses : (path : Text) → folders.is_dir path ≡ true → length path < folders.path_max
  pub named : (dir : Text) → All IsEntryName (names_of folders dir)

length-join : (dir name : Text) → IsEntryName name → length dir < length (join dir name)
unfolding join
length-join dir name (some_name, relative) =
    rw relative
      (omega (arith, length-append dir (separator dir ++ name), length-append (separator dir) name))

any_of-concat :
    (test : Text → Bool) (files : List Text) (path : Text)
    → any_of test (files ++ (path ∷ [])) ≡ (any_of test files || test path)
unfolding any_of
any_of-concat test [] path = ground arith
any_of-concat test (f ∷ files) path = ground (arith, any_of-concat test files path)

module _ (folders : Folders) (system : IsFileSystem folders) (test : Text → Bool) where
  abbrev test_entries : (Text → Bool) → Text → List Text → Bool
  test_entries deeper dir [] = false
  test_entries deeper dir (name ∷ names) =
      (if folders.is_dir (join dir name) then deeper (join dir name) else test (join dir name))
      || test_entries deeper dir names

  -- Whether some file passes that is reached from the folder in at most so many steps.
  unfoldable pub test_within : ℕ → Text → Bool
  unfolding join
  test_within zero dir = false
  test_within (suc k) dir = test_entries (λ p. test_within k p) dir (names_of folders dir)

  -- A folder of the stack, with the steps that are left from there.
  abbrev Counted : Type 0
  Counted = List (ℕ × Text)

  abbrev paths : Counted → List Text
  paths [] = []
  paths ((k, dir) ∷ stack) = dir ∷ paths stack

  abbrev Fits : ℕ × Text → Type 0
  Fits (k, dir) = (folders.path_max < length dir + k) × (1 ≤ k)

  weight : Counted → ℕ
  weight [] = 0
  weight ((k, dir) ∷ stack) = folders_within folders k dir + weight stack

  tests : Counted → Bool
  tests [] = false
  tests ((k, dir) ∷ stack) = test_within k dir || tests stack

  -- What a visit leaves on the stack, and what passes there and among the files.
  abbrev Visited : ℕ → Text → List Text → Counted → List Text → List Text × List Text → Type 0
  Visited k dir names stack files after =
      (left : Counted) × (after.0 ≡ paths left)
      × All Fits left
      × (weight left
          ≡ weight stack + sum_folders folders (λ p. folders_within folders k p) dir names)
      × ((any_of test after.1 || tests left)
          ≡ (any_of test files || (test_entries (λ p. test_within k p) dir names || tests stack)))

  visit-folder :
      (dir name : Text) (names stack files : List Text)
      → folders.is_dir (join dir name) ≡ true
      → visit folders dir (name ∷ names) stack files
        ≡ visit folders dir names (join dir name ∷ stack) files
  unfolding visit
  visit-folder dir name names stack files is_folder =
      ap
        (λ b.
          let now : List Text × List Text =
            if b then (join dir name ∷ stack, files) else (stack, files ++ (join dir name ∷ [])) in
          visit folders dir names now.0 now.1)
        is_folder

  visit-file :
      (dir name : Text) (names stack files : List Text)
      → folders.is_dir (join dir name) ≡ false
      → visit folders dir (name ∷ names) stack files
        ≡ visit folders dir names stack (files ++ (join dir name ∷ []))
  unfolding visit
  visit-file dir name names stack files is_file =
      ap
        (λ b.
          let now : List Text × List Text =
            if b then (join dir name ∷ stack, files) else (stack, files ++ (join dir name ∷ [])) in
          visit folders dir names now.0 now.1)
        is_file

  visit-Visited :
      (k : ℕ) (dir : Text) (names : List Text) (stack : Counted) (files : List Text)
      → folders.path_max < length dir + suc k
      → All IsEntryName names
      → All Fits stack
      → Visited k dir names stack files (visit folders dir names (paths stack) files)
  unfolding visit weight tests
  visit-Visited k dir [] stack files long named fits = (stack, refl, fits, omega arith, refl)
  visit-Visited k dir (name ∷ names) stack files long (here, there) fits =
      let path = join dir name in
      elim (Bool-cases (folders.is_dir path)) [
        | inl is_folder ↦
            let shorter = system.refuses path is_folder in
            let longer = length-join dir name here in
            let (left, same, all_fit, weighs, passes) =
              visit-Visited k dir names ((k, path) ∷ stack) files long there
                ((omega arith, omega arith), fits) in
            subst (Visited k dir (name ∷ names) stack files)
              (sym (visit-folder dir name names (paths stack) files is_folder))
              (rw is_folder (left, same, all_fit, omega (arith, weighs), ground (arith, passes)))
        | inr is_file ↦
            let (left, same, all_fit, weighs, passes) =
              visit-Visited k dir names stack (files ++ (path ∷ [])) long there fits in
            subst (Visited k dir (name ∷ names) stack files)
              (sym (visit-file dir name names (paths stack) files is_file))
              (rw is_file (
                left,
                same,
                all_fit,
                weighs,
                ground (arith, passes, any_of-concat test files path),
              ))
      ]

  walk-tests :
      (rounds : ℕ) (stack : Counted) (files : List Text)
      → All Fits stack
      → weight stack ≤ rounds
      → (found : List Text) × (walk folders rounds (paths stack) files ≡ some found)
        × (any_of test found ≡ (any_of test files || tests stack))
  unfolding walk weight tests folders_within test_within
  walk-tests rounds [] files fits h = (files, refl, ground arith)
  walk-tests rounds ((zero, dir) ∷ stack) files ((_, some_step), _) h = absurd (omega arith)
  walk-tests zero ((suc k, dir) ∷ stack) files fits h = absurd (omega arith)
  walk-tests (suc rounds) ((suc k, dir) ∷ stack) files ((long, _), fits) h =
      let after = visit folders dir (names_of folders dir) (paths stack) files in
      let (left, same, all_fit, weighs, passes) =
        visit-Visited k dir (names_of folders dir) stack files long (system.named dir) fits in
      let (found, walked, tested) =
        walk-tests rounds left after.1 all_fit (omega (arith, weighs)) in
      (found, ap (λ l. walk folders rounds l after.1) same ∙ walked, ground (arith, tested, passes))

  -- If the system refuses paths of a certain length and more, the walk ends, also where a link leads
  -- back to a folder above it; and some file found passes a test just if one does that is reached in
  -- the steps that such a path can have.
  pub walk_files_enough :
      (dir : Text)
      → (found : List Text) × (walk_files folders dir ≡ some found)
        × (any_of test found ≡ test_within (steps_left folders dir) dir)
  unfolding walk_files weight tests any_of
  walk_files_enough dir =
      let k = steps_left folders dir in
      let (found, walked, passes) =
        walk-tests (folders_within folders k dir) ((k, dir) ∷ []) []
          ((omega arith, omega arith), tt) (omega arith) in
      (found, walked, ground (arith, passes))
