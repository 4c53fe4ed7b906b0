-- ===== src/Prelude/Splits.antt =====
-- Texts in pieces: `rsplit(sep).next()`, and lines, each ended by a newline.
use Prim.Native.Nat.{ℕ}
use mathlib.Core.List.{List, [], ◌∷◌, ◌++◌}
use nexpack.Prelude.Tests.{◌==◌, if◌then◌else◌}
use nexpack.Prelude.Texts.{Text}

-- What stands behind the last separator, with what was read since it.
unfoldable pub after_last : ℕ → Text → Text → Text
after_last sep acc [] = acc
after_last sep acc (c ∷ t) = after_last sep (if c == sep then [] else acc ++ (c ∷ [])) t

-- `t.rsplit(sep).next()`, which is never `None`.
unfoldable pub last_part : ℕ → Text → Text
unfolding after_last
last_part sep t = after_last sep [] t

unfoldable pub unlines : List Text → Text
unlines [] = []
unlines (line ∷ ls) = line ++ (b'\n' ∷ unlines ls)
