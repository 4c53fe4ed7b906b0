-- ===== src/Tests/Inspects.antt =====
-- Inspecting, and walking through a folder.
use nexpack.Prelude.{
  ◌∷◌, ◌&&◌, ltb, length, arith, ◌≡◌, ◌⊎◌, true, some, List, [], Text, codes, take, ok, err, Error,
  refl,
}
use nexpack.Bundle.{Bundle, parse_bundle}
use nexpack.Inspect.{inspect}
use nexpack.Inspect.Calm.{report_of, inspect_total}
use nexpack.Compat.Convert.{any_of, ends_with}
use nexpack.Compat.Walk.{
  Folders, IsFileSystem, walk_files, test_within, steps_left, walk_files_enough,
}
use nexpack.Tests.Fixtures.{toy_hex}
use nexpack.Tests.Stores.{codec}

inspect_total_example :
    ((b : Bundle) × (parse_bundle codec (codes "stubNX02m") ≡ ok b)
      × (inspect codec toy_hex (λ path. ok (codes "stubNX02m")) (codes "app.nxpk") true
          ≡ ok (
              report_of true
                (codes "app.nxpk")
                b
                (toy_hex (take b.header.offset (codes "stubNX02m"))))))
    ⊎ ((e : Error) × (parse_bundle codec (codes "stubNX02m") ≡ err e)
        × (inspect codec toy_hex (λ path. ok (codes "stubNX02m")) (codes "app.nxpk") true ≡ err e))
inspect_total_example =
    inspect_total codec toy_hex (λ path. ok (codes "stubNX02m")) (codes "app.nxpk") true
      (codes "stubNX02m") refl

-- Every folder has a link to itself, and a file; the system takes paths of fewer than 20 characters.
abbrev looped : Folders
looped = record {
  is_dir = λ path. ltb (length path) 20 && ends_with (codes "/loop") path;
  read_dir = λ dir. some (codes "loop" ∷ codes "curl" ∷ []);
  path_max = 20;
}

looped-IsFileSystem : IsFileSystem looped
looped-IsFileSystem = record {
  refuses = λ path is_folder. ground arith;
  named = λ dir. ((omega arith, refl), ((omega arith, refl), tt));
}

walk_files_enough_example :
    (found : List Text) × (walk_files looped (codes "/x") ≡ some found)
    × (any_of (ends_with (codes "/curl")) found
        ≡ test_within looped looped-IsFileSystem
            (ends_with (codes "/curl"))
            (steps_left looped (codes "/x"))
            (codes "/x"))
walk_files_enough_example =
    walk_files_enough looped looped-IsFileSystem (ends_with (codes "/curl")) (codes "/x")
