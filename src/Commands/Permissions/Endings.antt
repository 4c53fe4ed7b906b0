-- ===== src/Commands/Permissions/Endings.antt =====
-- When the menu's loop ends, and when it never does.
use nexpack.Prelude.{
  Outcome, ok, err, io, List, ℕ, zero, suc, ◌<◌, ◌≤◌, ◌≡◌, ◌⊎◌, refl, sym, ap, subst, ◌∙◌, Bool,
  Bool-cases, inl, inr, true, false, Option, none, some, [], ◌∷◌, length, All, Text, codes, text_eq,
  arith, if◌then◌else◌,
}
use nexpack.Permission.{PermissionSet}
use nexpack.Update.Command.{is_empty}
use nexpack.Commands.Permissions.{
  Input, trim_start, trim_end, trim, read_line, read_list, Round, again, save, failed, with_read,
  add_entry, choose, choose_read, edit_round, edit_loop,
}

abbrev after : Bool → ℕ → Round → Option (Outcome (PermissionSet × Input))
unfolding edit_loop
after broken rounds (again perm rest) = edit_loop broken rounds rest perm
after broken rounds (save perm rest) = some (ok (perm, rest))
after broken rounds failed = some (err (io "terminal"))

pub edit_loop-again :
    (broken : Bool) (rounds : ℕ) (input rest : Input) (perm perm' : PermissionSet)
    → edit_round broken input perm ≡ again perm' rest
    → edit_loop broken (suc rounds) input perm ≡ edit_loop broken rounds rest perm'
unfolding edit_loop
edit_loop-again broken rounds input rest perm perm' e = ap (after broken rounds) e

pub edit_loop-save :
    (broken : Bool) (rounds : ℕ) (input rest : Input) (perm perm' : PermissionSet)
    → edit_round broken input perm ≡ save perm' rest
    → edit_loop broken (suc rounds) input perm ≡ some (ok (perm', rest))
unfolding edit_loop
edit_loop-save broken rounds input rest perm perm' e = ap (after broken rounds) e

edit_loop-failed :
    (broken : Bool) (rounds : ℕ) (input : Input) (perm : PermissionSet)
    → edit_round broken input perm ≡ failed
    → edit_loop broken (suc rounds) input perm ≡ some (err (io "terminal"))
unfolding edit_loop
edit_loop-failed broken rounds input perm e = ap (after broken rounds) e

-- What holds of the input that is left, or, if the round saves or fails, `Q` or `F`.
abbrev OnRound : (Input → Type 0) → Type 0 → Type 0 → Round → Type 0
OnRound P Q F (again perm rest) = P rest
OnRound P Q F (save perm rest) = Q
OnRound P Q F failed = F

OnRound-if :
    (P : Input → Type 0) (Q F : Type 0) (b : Bool) (x y : Round)
    → (b ≡ true → OnRound P Q F x)
    → OnRound P Q F y
    → OnRound P Q F (if b then x else y)
OnRound-if P Q F true x y hx hy = hx refl
OnRound-if P Q F false x y hx hy = hy

abbrev OnRead {ℓ} : {A : Type ℓ} → (Input → Type 0) → Type 0 → Option (A × Input) → Type 0
OnRead P F none = F
OnRead P F (some (a, rest)) = P rest

OnRead-with_read {ℓ} :
    {A : Type ℓ} (P : Input → Type 0) (Q F : Type 0) (o : Option (A × Input))
    (set : A → PermissionSet)
    → OnRead P F o
    → OnRound P Q F (with_read o set)
OnRead-with_read P Q F none set h = h
OnRead-with_read P Q F (some (a, rest)) set h = h

OnRead-add_entry :
    (P : Input → Type 0) (F : Type 0) (entry : Text) (o : Option (List Text × Input))
    → OnRead P F o
    → OnRead P F (add_entry entry o)
OnRead-add_entry P F entry none h = h
OnRead-add_entry P F entry (some (entries, rest)) h = h

-- A property of an input that its tail has too.
module _ (broken : Bool) (P : Input → Type 0)
    (tail : (line : Text) (input : Input) → P (line ∷ input) → P input) where
  abbrev Fails : Type 0
  Fails = broken ≡ true

  read_line_keeps : (input : Input) → P input → OnRead P Fails (read_line broken input)
  read_line_keeps [] h = elim (Bool-cases broken) [ inl b ↦ rw b refl | inr b ↦ rw b h ]
  read_line_keeps (line ∷ input) h = tail line input h

  read_list_keeps : (input : Input) → P input → OnRead P Fails (read_list broken input)
  unfolding read_list
  read_list_keeps [] h = elim (Bool-cases broken) [ inl b ↦ rw b refl | inr b ↦ rw b h ]
  read_list_keeps (line ∷ input) h =
      let rest =
        OnRead-add_entry P Fails (trim line) (read_list broken input)
          (read_list_keeps input (tail line input h)) in
      elim (Bool-cases (is_empty (trim line))) [
        | inl blank ↦ rw blank (tail line input h)
        | inr entry ↦ rw entry rest
      ]

  choose_keeps :
      (choice : Text) (perm : PermissionSet) (input : Input)
      → P input
      → OnRound P (text_eq choice (codes "6") ≡ true) Fails (choose broken choice perm input)
  unfolding choose
  choose_keeps choice perm input h =
      let Q = text_eq choice (codes "6") ≡ true in
      let line = read_line_keeps input h in
      let list = read_list_keeps input h in
      OnRound-if P Q Fails (text_eq choice (codes "1")) _ _
        (λ _. OnRead-with_read P Q Fails (read_line broken input) _ line)
        (OnRound-if P Q Fails (text_eq choice (codes "2")) _ _
          (λ _. OnRead-with_read P Q Fails (read_list broken input) _ list)
          (OnRound-if P Q Fails (text_eq choice (codes "3")) _ _
            (λ _. OnRead-with_read P Q Fails (read_list broken input) _ list)
            (OnRound-if P Q Fails (text_eq choice (codes "4")) _ _
              (λ _. OnRead-with_read P Q Fails (read_list broken input) _ list)
              (OnRound-if P Q Fails (text_eq choice (codes "5")) _ _
                (λ _. OnRead-with_read P Q Fails (read_line broken input) _ line)
                (OnRound-if P Q Fails (text_eq choice (codes "6")) _ _ (λ e. e) h)))))

-- No line is a 6.
abbrev pub IsUnsaved : Input → Type 0
IsUnsaved input = All (λ line. text_eq (trim line) (codes "6") ≡ false) input

OnRound-map :
    (P : Input → Type 0) (r : Round) {Q F : Type 0}
    → (Q → ⊥)
    → (F → ⊥)
    → OnRound P Q F r
    → OnRound P ⊥ ⊥ r
OnRound-map P (again perm rest) no_save no_fail h = h
OnRound-map P (save perm rest) no_save no_fail h = no_save h
OnRound-map P failed no_save no_fail h = no_fail h

never_after :
    (rounds : ℕ) (r : Round)
    → OnRound IsUnsaved ⊥ ⊥ r
    → ((input : Input) (perm : PermissionSet)
        → IsUnsaved input
        → edit_loop false rounds input perm ≡ none)
    → after false rounds r ≡ none
unfolding after edit_loop
never_after rounds (again perm rest) h later = later rest perm h
never_after rounds (save perm rest) h later = absurd h
never_after rounds failed h later = absurd h

-- A round at the end of the input.
edit_round_at_end : (perm : PermissionSet) → edit_round false [] perm ≡ again perm []
unfolding edit_round choose_read choose trim trim_start trim_end text_eq
edit_round_at_end perm = refl

-- A round on such an input goes on, and leaves such an input.
edit_round-IsUnsaved :
    (input : Input) (perm : PermissionSet)
    → IsUnsaved input
    → OnRound IsUnsaved ⊥ ⊥ (edit_round false input perm)
unfolding edit_round choose_read
edit_round-IsUnsaved [] perm h = subst (OnRound IsUnsaved ⊥ ⊥) (sym (edit_round_at_end perm)) tt
edit_round-IsUnsaved (line ∷ input) perm (here, there) =
    OnRound-map IsUnsaved (choose false (trim line) perm input) (λ six. absurd cc) (λ f. absurd cc)
      (choose_keeps false IsUnsaved (λ _ _ h. h.1) (trim line) perm input there)

-- If no line of the input is a 6 and the terminal works, the loop never ends, however many rounds it
-- is given. So it goes on for ever when the input is at its end.
pub edit_loop_unsaved :
    (rounds : ℕ) (input : Input) (perm : PermissionSet)
    → IsUnsaved input
    → edit_loop false rounds input perm ≡ none
unfolding edit_loop
edit_loop_unsaved zero input perm h = refl
edit_loop_unsaved (suc rounds) input perm h =
    never_after rounds (edit_round false input perm) (edit_round-IsUnsaved input perm h)
      (edit_loop_unsaved rounds)

abbrev IsWithin : ℕ → Input → Type 0
IsWithin n input = length input ≤ n

shorter : (n : ℕ) (line : Text) (input : Input) → IsWithin n (line ∷ input) → IsWithin n input
shorter n line input h = omega arith

-- A round reads a line.
edit_round_shortens :
    (broken : Bool) (line : Text) (input : Input) (perm : PermissionSet)
    → OnRound
        (IsWithin (length input))
        (text_eq (trim line) (codes "6") ≡ true)
        (broken ≡ true)
        (edit_round broken (line ∷ input) perm)
unfolding edit_round choose_read
edit_round_shortens broken line input perm =
    choose_keeps broken (IsWithin (length input)) (shorter (length input)) (trim line) perm input
      (omega arith)

Round-cases :
    (r : Round)
    → ((perm : PermissionSet) × (rest : Input) × (r ≡ again perm rest))
      ⊎ (((perm : PermissionSet) × (rest : Input) × (r ≡ save perm rest)) ⊎ (r ≡ failed))
Round-cases (again perm rest) = inl (perm, rest, refl)
Round-cases (save perm rest) = inr (inl (perm, rest, refl))
Round-cases failed = inr (inr refl)

-- Also a broken terminal is found at once at the end of the input.
edit_loop_at_end :
    (broken : Bool) (rounds enough : ℕ) (perm : PermissionSet)
    (ended : Outcome (PermissionSet × Input))
    → edit_loop broken (suc rounds) [] perm ≡ some ended
    → edit_loop broken (suc enough) [] perm ≡ some ended
unfolding edit_loop edit_round choose_read
edit_loop_at_end false rounds enough perm ended e =
    let never = edit_loop_unsaved (suc rounds) [] perm tt in absurd cc
edit_loop_at_end true rounds enough perm ended e = e

-- The loop that ends in any number of rounds, saving or with an error, ends, with the same result, in
-- any number that is larger than that of the lines.
pub edit_loop_enough :
    (broken : Bool) (rounds : ℕ) (input : Input) (perm : PermissionSet)
    (ended : Outcome (PermissionSet × Input)) (enough : ℕ)
    → length input < enough
    → edit_loop broken rounds input perm ≡ some ended
    → edit_loop broken enough input perm ≡ some ended
unfolding edit_loop
edit_loop_enough broken zero input perm ended enough h e = absurd cc
edit_loop_enough broken (suc rounds) input perm ended zero h e = absurd (omega arith)
edit_loop_enough broken (suc rounds) [] perm ended (suc enough) h e =
    edit_loop_at_end broken rounds enough perm ended e
edit_loop_enough broken (suc rounds) (line ∷ input) perm ended (suc enough) h e =
    let within = edit_round_shortens broken line input perm in
    elim (Round-cases (edit_round broken (line ∷ input) perm)) [
      | inl (perm', rest, r) ↦
          let less : length rest ≤ length input =
            subst
              (OnRound (IsWithin (length input)) (text_eq (trim line) (codes "6") ≡ true)
                (broken ≡ true))
              r within in
          edit_loop-again broken enough (line ∷ input) rest perm perm' r
          ∙ edit_loop_enough broken rounds rest perm' ended enough (omega (arith, less))
              (sym (edit_loop-again broken rounds (line ∷ input) rest perm perm' r) ∙ e)
      | inr (inl (perm', rest, r)) ↦
          edit_loop-save broken enough (line ∷ input) rest perm perm' r
          ∙ (sym (edit_loop-save broken rounds (line ∷ input) rest perm perm' r) ∙ e)
      | inr (inr r) ↦
          edit_loop-failed broken enough (line ∷ input) perm r
          ∙ (sym (edit_loop-failed broken rounds (line ∷ input) perm r) ∙ e)
    ]
