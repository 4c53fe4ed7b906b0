-- ===== src/Compat/Squashfs.antt =====
-- `find_squashfs_offset`. Subtraction on `u64` wraps, as it does in a release build.
use nexpack.Prelude.{
  All, length-take, length-drop, ℕ, zero, suc, ◌+◌, ◌-◌, ◌/◌, ◌%◌, ◌^◌, ◌≤◌, ◌<◌, ◌≡◌, ◌⊎◌, refl,
  sym, ap, Bool, Bool-cases, Option-cases, inl, inr, true, false, ◌||◌, Option, none, some, List,
  [], ◌∷◌, codes, text_eq, text_eq→≡, Bytes, length, take, drop, from_le_bytes, ltb, leb, ◌==◌,
  Outcome, ok, err, panic, other, arith, if◌then◌else◌,
}

abbrev pub chunk_at : ℕ → Bytes → Bytes
chunk_at i input = take 4 (drop i input)

abbrev pub hsqs : Bytes
hsqs = codes "hsqs"

abbrev pub sqsh : Bytes
sqsh = codes "sqsh"

abbrev pub qshs : Bytes
qshs = codes "qshs"

unfoldable pub is_magic : Bytes → Bool
is_magic chunk = text_eq chunk hsqs || (text_eq chunk sqsh || text_eq chunk qshs)

-- The first of the positions `i`, `i + step`, .. whose chunk passes the test.
unfoldable pub scan : (Bytes → Bool) → ℕ → ℕ → ℕ → Bytes → Option ℕ
scan test step zero i input = none
scan test step (suc turns) i input =
    let rest = scan test step turns (i + step) input in
    if test (chunk_at i input) then some i else rest

-- `0..data.len().saturating_sub(4)`, every fourth of these, or each.
abbrev pub aligned_turns : Bytes → ℕ
aligned_turns input = (length input - 4 + 3) / 4

abbrev pub turns_of : Bytes → ℕ
turns_of input = length input - 4

unfoldable pub guess : ℕ → ℕ
guess i = if leb 4 i then i - 4 else i

-- What is returned from a loop that finds something, or what comes behind the loop.
abbrev pub or_found : Option ℕ → (ℕ → ℕ × Bytes) → Outcome (ℕ × Bytes) → Outcome (ℕ × Bytes)
or_found (some i) found rest = ok (found i)
or_found none found rest = rest

-- The second search: one magic after the other.
unfoldable pub scan_each : List Bytes → Bytes → Outcome (ℕ × Bytes)
unfolding scan guess
scan_each [] input = err (other "could not locate squashfs image in AppImage")
scan_each (magic ∷ magics) input =
    let rest = scan_each magics input in
    or_found (scan (λ chunk. text_eq chunk magic) 1 (turns_of input) 0 input)
      (λ i. (guess i, magic)) rest

unfoldable pub search : Bytes → Outcome (ℕ × Bytes)
unfolding scan scan_each is_magic
search input =
    or_found (scan is_magic 4 (aligned_turns input) 0 input)
      (λ i. ((2 ^ 64 + i - 4) % 2 ^ 64, chunk_at i input))
      (scan_each (hsqs ∷ sqsh ∷ qshs ∷ []) input)

unfoldable pub find_squashfs_offset : Bytes → Outcome (ℕ × Bytes)
unfolding search
find_squashfs_offset input =
    if ltb 8 (length input)
    then (if ltb (length input) 12
        then panic
        else if from_le_bytes (chunk_at 8 input) == 0xFFFFFFFF
            || from_le_bytes (chunk_at 8 input) == 0
        then search input
        else err (other "could not locate squashfs image in AppImage"))
    else err (other "could not locate squashfs image in AppImage")

-- An AppImage of type 2 has the bytes `AI` and 2 at its position 8, and the search is not even begun.
pub find_squashfs_offset-appimage :
    (input rest : Bytes) (last : ℕ)
    → 12 ≤ length input
    → drop 8 input ≡ b'A' ∷ b'I' ∷ 2 ∷ last ∷ rest
    → find_squashfs_offset input ≡ err (other "could not locate squashfs image in AppImage")
unfolding find_squashfs_offset from_le_bytes
find_squashfs_offset-appimage input rest last h e =
    let first : ltb 8 (length input) ≡ true = ground arith in
    let second : ltb (length input) 12 ≡ false = ground arith in
    rw (first, second, e) (ground arith)

scan-eq-some :
    (test : Bytes → Bool) (step turns i j : ℕ) (input : Bytes)
    → scan test step turns i input ≡ some j
    → (test (chunk_at j input) ≡ true) × ((j ≡ i) ⊎ (i + step ≤ j))
unfolding scan
scan-eq-some test step zero i j input h = absurd cc
scan-eq-some test step (suc turns) i j input h = elim (Bool-cases (test (chunk_at i input))) [
  | inl here ↦ let same : i ≡ j = (let h' = rw here at h in cc) in (rw same at here, inl (sym same))
  | inr later ↦
      let (passed, after) = scan-eq-some test step turns (i + step) j input (rw later at h) in
      (passed, inr (elim after [ inl same ↦ omega arith | inr beyond ↦ omega arith ]))
]

chunk_in_range : (j : ℕ) (input : Bytes) → length (chunk_at j input) ≡ 4 → j + 4 ≤ length input
chunk_in_range j input h = omega (arith, length-take 4 (drop j input), length-drop j input)

length-magic : (chunk : Bytes) → is_magic chunk ≡ true → length chunk ≡ 4
unfolding is_magic
length-magic chunk h = elim (Bool-cases (text_eq chunk hsqs)) [
  | inl first ↦ ap length (text_eq→≡ chunk hsqs first)
  | inr other_one ↦ elim (Bool-cases (text_eq chunk sqsh)) [
    | inl second ↦ ap length (text_eq→≡ chunk sqsh second)
    | inr last_one ↦ ap length (text_eq→≡ chunk qshs (rw (other_one, last_one) at h))
  ]
]

-- What a search finds: a magic, and where it says that it is.
abbrev pub IsFound : Bytes → ℕ → Bytes → Type 0
IsFound input offset magic =
    (i : ℕ) × (chunk_at i input ≡ magic)
    × (is_magic magic ≡ true)
    × ((offset + 4 ≡ i) ⊎ ((i < 4) × (offset ≡ i)))

guess-IsFound :
    (input magic : Bytes) (i : ℕ)
    → chunk_at i input ≡ magic
    → is_magic magic ≡ true
    → IsFound input (guess i) magic
unfolding guess
guess-IsFound input magic i at h = (i, at, h, ground arith)

scan_each-IsFound :
    (magics : List Bytes) (input : Bytes) (offset : ℕ) (m : Bytes)
    → All (λ magic. is_magic magic ≡ true) magics
    → scan_each magics input ≡ ok (offset, m)
    → IsFound input offset m
unfolding scan_each
scan_each-IsFound [] input offset m h e = absurd cc
scan_each-IsFound (magic ∷ magics) input offset m (here, there) e =
    elim (Option-cases (scan (λ chunk. text_eq chunk magic) 1 (turns_of input) 0 input)) [
      | inl none_e ↦ scan_each-IsFound magics input offset m there (rw none_e at e)
      | inr (i, found) ↦
          let e' = rw found at e in
          let same_offset : guess i ≡ offset = cc in
          let same_magic : magic ≡ m = cc in
          let (passed, _) =
            scan-eq-some (λ chunk. text_eq chunk magic) 1 (turns_of input) 0 i input found in
          rw (← same_offset, ← same_magic)
            (guess-IsFound input magic i (text_eq→≡ (chunk_at i input) magic passed) here)
    ]

search-IsFound :
    (input : Bytes) (offset : ℕ) (m : Bytes)
    → is_magic (chunk_at 0 input) ≡ false
    → length input < 2 ^ 64
    → search input ≡ ok (offset, m)
    → IsFound input offset m
unfolding search is_magic text_eq
search-IsFound input offset m head small e =
    elim (Option-cases (scan is_magic 4 (aligned_turns input) 0 input)) [
      | inl none_e ↦
          scan_each-IsFound (hsqs ∷ sqsh ∷ qshs ∷ []) input offset m (refl, (refl, (refl, tt)))
            (rw none_e at e)
      | inr (i, found) ↦
          let (passed, place) = scan-eq-some is_magic 4 (aligned_turns input) 0 i input found in
          let e' = rw found at e in
          let same_offset : (2 ^ 64 + i - 4) % 2 ^ 64 ≡ offset = cc in
          let same_magic : chunk_at i input ≡ m = cc in
          let inside = chunk_in_range i input (length-magic (chunk_at i input) passed) in
          (
            i,
            same_magic,
            rw same_magic at passed,
            elim place [
              | inl at_start ↦ absurd (let h = rw at_start at passed in cc)
              | inr beyond ↦ inl (omega arith)
            ],
          )
    ]

-- In a file that does not begin with a magic, and that fits a `u64`, the offset that is found is four
-- bytes before a magic of squashfs, except where the magic is in the first four bytes.
pub find_squashfs_offset-ok :
    (input : Bytes) (offset : ℕ) (m : Bytes)
    → is_magic (chunk_at 0 input) ≡ false
    → length input < 2 ^ 64
    → find_squashfs_offset input ≡ ok (offset, m)
    → IsFound input offset m
unfolding find_squashfs_offset
find_squashfs_offset-ok input offset m head small e =
    search-IsFound input offset m head small (searched e)
  where
    searched : find_squashfs_offset input ≡ ok (offset, m) → search input ≡ ok (offset, m)
    searched e = ground arith
