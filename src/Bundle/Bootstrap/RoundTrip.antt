-- ===== src/Bundle/Bootstrap/RoundTrip.antt =====
-- The bootstrap block is read back as it was written, and reading stays inside the block.
use native.Mathlib.Nat.{mod-eq_of_lt}
use nexpack.Prelude.{
  ℕ, zero, suc, ◌^◌, ◌<◌, ◌≡◌, refl, List, [], ◌∷◌, ◌++◌, Text, Bytes, utf8, take, drop, length,
  All, to_le_bytes, from_le_bytes, from_le_bytes-to_le_bytes, length-to_le_bytes, Error, Outcome,
  panic, ◌>>=◌, ◌>>◌, IsCalm, >>=-IsCalm, ne-panic, ok-injective, ap, sym, subst, ◌≢◌, >>=-eq-ok,
  Bool-cases, inl, inr, append_assoc, length-append, length-take, take-append, drop-append, ok, ltb,
  ge→ltb, arith,
}
use nexpack.Bundle.Bootstrap.{
  BootstrapEntry, split_off, check_left, parse_entry, parse_entries, parse_bootstrap_entries,
  make_entry, make_entries, make_bootstrap_data,
}

-- The lengths fit the fields that hold them.
pub record IsEntry (lossy : Bytes → Text) (e : BootstrapEntry) : Type 0 where
  pub name_fits : length (utf8 e.name) < 2 ^ 16
  pub data_fits : length e.binary < 2 ^ 32
  pub name_reads : lossy (utf8 e.name) ≡ e.name

split_off-append : (xs ys : Bytes) → split_off (length xs) (xs ++ ys) ≡ ok (xs, ys)
unfolding split_off
split_off-append xs ys = rw (
  ge→ltb (length (xs ++ ys)) (length xs) (omega (arith, length-append xs ys)),
  take-append xs ys,
  drop-append xs ys,
)

check_left-append : (xs ys : Bytes) (e : Error) → check_left (length xs) (xs ++ ys) e ≡ ok tt
unfolding check_left
check_left-append xs ys e =
    rw (ge→ltb (length (xs ++ ys)) (length xs) (omega (arith, length-append xs ys))) refl

-- The length field, then so many bytes.
split_off-to_le_bytes :
    (w n : ℕ) (ys : Bytes) → split_off w (to_le_bytes w n ++ ys) ≡ ok (to_le_bytes w n, ys)
split_off-to_le_bytes w n ys = rw length-to_le_bytes at (split_off-append (to_le_bytes w n) ys)

check_left-to_le_bytes :
    (w n : ℕ) (ys : Bytes) (e : Error) → check_left w (to_le_bytes w n ++ ys) e ≡ ok tt
check_left-to_le_bytes w n ys e =
    rw length-to_le_bytes at (check_left-append (to_le_bytes w n) ys e)

split_off_field :
    (w : ℕ) (xs ys : Bytes)
    → length xs < 256 ^ w
    → split_off (from_le_bytes (to_le_bytes w (length xs))) (xs ++ ys) ≡ ok (xs, ys)
split_off_field w xs ys h = rw (from_le_bytes-to_le_bytes w (length xs) h) (split_off-append xs ys)

check_left_field :
    (w : ℕ) (xs ys : Bytes) (e : Error)
    → length xs < 256 ^ w
    → check_left (from_le_bytes (to_le_bytes w (length xs))) (xs ++ ys) e ≡ ok tt
check_left_field w xs ys e h =
    rw (from_le_bytes-to_le_bytes w (length xs) h) (check_left-append xs ys e)

module _ (lossy : Bytes → Text) where
  parse_entry-make_entry :
      (e : BootstrapEntry) (rest : Bytes)
      → IsEntry lossy e
      → parse_entry lossy (make_entry e ++ rest) ≡ ok (e, rest)
  unfolding parse_entry make_entry
  parse_entry-make_entry e rest fits =
      let name_field = split_off_field 2 (utf8 e.name) in
      let data_field = split_off_field 4 e.binary rest (omega arith) in
      rw (mod-eq_of_lt fits.name_fits, mod-eq_of_lt fits.data_fits)
        (simp (append_assoc, split_off-to_le_bytes, check_left-to_le_bytes)
          (rw (
            check_left_field 2 (utf8 e.name) _ _ (omega arith),
            name_field _ (omega arith),
            check_left-to_le_bytes,
            split_off-to_le_bytes,
            check_left_field 4 e.binary rest _ (omega arith),
            data_field,
            fits.name_reads,
          )))

  parse_entries-make_entries :
      (entries : List BootstrapEntry) (rest : Bytes)
      → All (IsEntry lossy) entries
      → parse_entries lossy (length entries) (make_entries entries ++ rest) ≡ ok entries
  unfolding parse_entries make_entries
  parse_entries-make_entries [] rest fits = refl
  parse_entries-make_entries (e ∷ entries) rest (here, there) = rw (
    append_assoc,
    parse_entry-make_entry e (make_entries entries ++ rest) here,
    parse_entries-make_entries entries rest there,
  )

  -- Entries whose lengths fit their fields are read back from the block that holds them, whatever
  -- follows it.
  pub parse_bootstrap_entries-make_bootstrap_data :
      (entries : List BootstrapEntry) (rest : Bytes)
      → All (IsEntry lossy) entries
      → length entries < 2 ^ 32
      → parse_bootstrap_entries lossy (make_bootstrap_data entries ++ rest) ≡ ok entries
  unfolding parse_bootstrap_entries make_bootstrap_data
  parse_bootstrap_entries-make_bootstrap_data entries rest fits few = rw (
    mod-eq_of_lt few,
    append_assoc,
    check_left-to_le_bytes,
    split_off-to_le_bytes,
    from_le_bytes-to_le_bytes 4 (length entries) (omega arith),
    parse_entries-make_entries entries rest fits,
  )

-- How the entries lie in the block: each behind its two lengths, which are those of the name's bytes
-- and of the data, one entry behind the other.
abbrev pub LieIn : (Bytes → Text) → List BootstrapEntry → Bytes → Type 0
LieIn lossy [] input = Unit
LieIn lossy (e ∷ entries) input =
    (name_len : Bytes) × (name : Bytes) × (data_len : Bytes) × (rest : Bytes) × (input
      ≡ name_len ++ (name ++ (data_len ++ (e.binary ++ rest))))
    × (length name_len ≡ 2)
    × (from_le_bytes name_len ≡ length name)
    × (lossy name ≡ e.name)
    × (length data_len ≡ 4)
    × (from_le_bytes data_len ≡ length e.binary)
    × LieIn lossy entries rest

take-drop : (n : ℕ) (bytes : Bytes) → take n bytes ++ drop n bytes ≡ bytes
take-drop zero bytes = refl
take-drop (suc n) [] = refl
take-drop (suc n) (b ∷ bytes) = ap (λ l. b ∷ l) (take-drop n bytes)

split_off-eq-ok :
    (n : ℕ) (bytes : Bytes) (p : Bytes × Bytes)
    → split_off n bytes ≡ ok p
    → (length p.0 ≡ n) × (bytes ≡ p.0 ++ p.1)
unfolding split_off
split_off-eq-ok n bytes p h = ground (arith, length-take n bytes, take-drop n bytes)

-- The test lets no slice panic.
read_field-IsCalm :
    {A : Type 0} (n : ℕ) (bytes : Bytes) (e : Error) (next : Bytes × Bytes → Outcome A)
    → ((p : Bytes × Bytes) → IsCalm (next p))
    → IsCalm (check_left n bytes e >> (split_off n bytes >>= next))
unfolding check_left split_off
read_field-IsCalm n bytes e next calm = elim (Bool-cases (ltb (length bytes) n)) [
  | inl short ↦ rw short tt
  | inr enough ↦ rw enough (calm (take n bytes, drop n bytes))
]

module _ (lossy : Bytes → Text) where
  parse_entry-IsCalm : (rest : Bytes) → IsCalm (parse_entry lossy rest)
  unfolding parse_entry
  parse_entry-IsCalm rest = read_field-IsCalm 2 rest _ _ λ (name_len, rest1).
      read_field-IsCalm (from_le_bytes name_len) rest1 _ _ λ (name, rest2).
        read_field-IsCalm 4 rest2 _ _
          λ (data_len, rest3). read_field-IsCalm (from_le_bytes data_len) rest3 _ _ λ p. tt

  parse_entries-IsCalm : (n : ℕ) (rest : Bytes) → IsCalm (parse_entries lossy n rest)
  unfolding parse_entries
  parse_entries-IsCalm zero rest = tt
  parse_entries-IsCalm (suc n) rest =
      >>=-IsCalm (parse_entry lossy rest) _ (parse_entry-IsCalm rest) λ (entry, rest').
        >>=-IsCalm (parse_entries lossy n rest') _ (parse_entries-IsCalm n rest') λ entries. tt

  LieIn-fields :
      (input name_len rest1 name rest2 data_len rest3 binary rest : Bytes)
      (entries : List BootstrapEntry)
      → input ≡ name_len ++ rest1
      → rest1 ≡ name ++ rest2
      → rest2 ≡ data_len ++ rest3
      → rest3 ≡ binary ++ rest
      → length name_len ≡ 2
      → length name ≡ from_le_bytes name_len
      → length data_len ≡ 4
      → length binary ≡ from_le_bytes data_len
      → LieIn lossy entries rest
      → LieIn lossy (record { name = lossy name; binary = binary } ∷ entries) input
  LieIn-fields input name_len rest1 name rest2 data_len rest3 binary rest entries s1 s2 s3 s4 l1 l2
        l3 l4 more =
      (name_len, name, data_len, rest, rw (s1, s2, s3, s4) refl, l1, sym l2, refl, l3, sym l4, more)

  parse_entry-LieIn :
      (input rest : Bytes) (e : BootstrapEntry) (entries : List BootstrapEntry)
      → parse_entry lossy input ≡ ok (e, rest)
      → LieIn lossy entries rest
      → LieIn lossy (e ∷ entries) input
  unfolding parse_entry
  parse_entry-LieIn input rest e entries h more =
      let (_, _, h0) = >>=-eq-ok (check_left 2 input _) _ h in
      let ((name_len, rest1), f1, h1) = >>=-eq-ok (split_off 2 input) _ h0 in
      let (_, _, h2) = >>=-eq-ok (check_left (from_le_bytes name_len) rest1 _) _ h1 in
      let ((name, rest2), f2, h3) = >>=-eq-ok (split_off (from_le_bytes name_len) rest1) _ h2 in
      let (_, _, h4) = >>=-eq-ok (check_left 4 rest2 _) _ h3 in
      let ((data_len, rest3), f3, h5) = >>=-eq-ok (split_off 4 rest2) _ h4 in
      let (_, _, h6) = >>=-eq-ok (check_left (from_le_bytes data_len) rest3 _) _ h5 in
      let ((binary, rest4), f4, h7) = >>=-eq-ok (split_off (from_le_bytes data_len) rest3) _ h6 in
      let (l1, s1) = split_off-eq-ok 2 input (name_len, rest1) f1 in
      let (l2, s2) = split_off-eq-ok (from_le_bytes name_len) rest1 (name, rest2) f2 in
      let (l3, s3) = split_off-eq-ok 4 rest2 (data_len, rest3) f3 in
      let (l4, s4) = split_off-eq-ok (from_le_bytes data_len) rest3 (binary, rest4) f4 in
      subst
        (λ (p : BootstrapEntry × Bytes).
          LieIn lossy entries p.1 → LieIn lossy (p.0 ∷ entries) input)
        (ok-injective h7)
        (LieIn-fields input name_len rest1 name rest2 data_len rest3 binary rest4 entries s1 s2 s3
          s4 l1 l2 l3 l4)
        more

  parse_entries-LieIn :
      (n : ℕ) (input : Bytes) (entries : List BootstrapEntry)
      → parse_entries lossy n input ≡ ok entries
      → (length entries ≡ n) × LieIn lossy entries input
  unfolding parse_entries
  parse_entries-LieIn zero input [] h = (refl, tt)
  parse_entries-LieIn zero input (e ∷ entries) h = absurd cc
  parse_entries-LieIn (suc n) input entries h =
      let ((e, rest), first, more) = >>=-eq-ok (parse_entry lossy input) _ h in
      let (es, others, done) = >>=-eq-ok (parse_entries lossy n rest) _ more in
      let (counted, lie) = parse_entries-LieIn n rest es others in
      subst (λ l. (length l ≡ suc n) × LieIn lossy l input) (ok-injective done)
        (omega (arith, counted), parse_entry-LieIn input rest e es first lie)

  -- No block makes the reader panic. A block that is accepted begins with the number of its entries,
  -- and behind it the entries lie one behind the other, each name and data inside the block behind
  -- its length.
  pub parse_bootstrap_entries_bounds :
      (input : Bytes)
      → (parse_bootstrap_entries lossy input ≢ panic)
        × ((entries : List BootstrapEntry)
            → parse_bootstrap_entries lossy input ≡ ok entries
            → (length entries ≡ from_le_bytes (take 4 input)) × LieIn lossy entries (drop 4 input))
  unfolding parse_bootstrap_entries split_off check_left
  parse_bootstrap_entries_bounds input = (
    ne-panic (parse_bootstrap_entries lossy input) (
        read_field-IsCalm 4 input _ _
          λ (count, rest). parse_entries-IsCalm (from_le_bytes count) rest),
    λ entries h. elim (Bool-cases (ltb (length input) 4)) [
      | inl short ↦ absurd (let h' = rw short at h in cc)
      | inr enough ↦
          parse_entries-LieIn (from_le_bytes (take 4 input)) (drop 4 input) entries (rw enough at h)
    ],
  )
