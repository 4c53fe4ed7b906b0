-- ===== src/Header/Magic.antt =====
-- `BundleHeader::MAGIC`, and the search for its first occurrence.
use mathlib.Core.Option
use nexpack.Prelude.{
  ℕ, suc, ◌≡◌, refl, Bool, false, Option, none, some, [], ◌∷◌, ◌++◌, codes, Bytes, length, arith,
  ◌==◌, ◌&&◌, if◌then◌else◌,
}

-- b"NX02"
abbrev pub magic : Bytes
magic = codes "NX02"

-- `w == Self::MAGIC` at the window that begins here.
starts_with_magic : Bytes → Bool
starts_with_magic (a ∷ b ∷ c ∷ d ∷ r) = a == b'N' && b == b'X' && c == b'0' && d == b'2'
starts_with_magic _ = false

-- `data.windows(4).position(|w| w == Self::MAGIC)`
unfoldable pub find_magic : Bytes → Option ℕ
unfolding starts_with_magic
find_magic [] = none
find_magic (b ∷ r) =
    let later = Option.map suc (find_magic r) in if starts_with_magic (b ∷ r) then some 0 else later

-- The magic overlaps no shift of itself, so bytes without it, put before it, hold no occurrence
-- that reaches into it.
pub find_magic-append :
    (stub rest : Bytes)
    → find_magic stub ≡ none
    → find_magic (stub ++ (magic ++ rest)) ≡ some (length stub)
unfolding find_magic
find_magic-append [] rest h = refl
find_magic-append (a ∷ []) rest h = ground (arith, find_magic-append [] rest)
find_magic-append (a ∷ b ∷ []) rest h = ground (arith, find_magic-append (b ∷ []) rest)
find_magic-append (a ∷ b ∷ c ∷ []) rest h = ground (arith, find_magic-append (b ∷ c ∷ []) rest)
find_magic-append (a ∷ b ∷ c ∷ d ∷ s) rest h =
    ground (arith, find_magic-append (b ∷ c ∷ d ∷ s) rest)
