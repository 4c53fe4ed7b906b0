-- ===== src/Seccomp/Machine.antt =====
-- The reference for nexpackd/src/sandbox.rs's filter: classic BPF over `struct seccomp_data`, for
-- the three instructions that a filter of equality tests needs. Jumps only go forward, so the
-- program is walked once, with the number of instructions that are still to be skipped.
use nexpack.Prelude.{
  ℕ, zero, suc, Option, none, some, List, [], ◌∷◌, Bytes, from_le_bytes, ◌==◌, if◌then◌else◌,
}

-- `struct sock_filter`
pub record Insn : Type 0 where
  pub code : ℕ
  pub jt : ℕ
  pub jf : ℕ
  pub k : ℕ

-- Eight bytes to an instruction; fewer at the end are no instruction.
unfoldable pub decode : Bytes → List Insn
unfolding from_le_bytes
decode (a ∷ b ∷ c ∷ d ∷ e ∷ f ∷ g ∷ h ∷ rest) =
    record {
      code = from_le_bytes (a ∷ b ∷ []);
      jt = c;
      jf = d;
      k = from_le_bytes (e ∷ f ∷ g ∷ h ∷ []);
    }
    ∷ decode rest
decode _ = []

-- `struct seccomp_data`, as far as a filter may look: the call's number at offset 0, the
-- architecture at offset 4.
pub record SeccompData : Type 0 where
  pub nr : ℕ
  pub arch : ℕ

load : SeccompData → ℕ → ℕ
load d offset = if offset == 0 then d.nr else d.arch

-- From the accumulator `acc`, the value that the program returns. `none`: it runs off the end, or
-- meets another instruction.
unfoldable pub run : ℕ → List Insn → ℕ → SeccompData → Option ℕ
unfolding load
run skip [] acc d = none
run (suc skip) (i ∷ rest) acc d = run skip rest acc d
run zero (i ∷ rest) acc d =
    let loaded = run 0 rest (load d i.k) d in
    let jumped = run (if acc == i.k then i.jt else i.jf) rest acc d in
    if i.code == 0x20
    then loaded
    else if i.code == 0x15
    then jumped
    else if i.code == 0x06
    then some i.k
    else none

-- What the kernel does with a call under the filter.
unfoldable pub verdict : Bytes → SeccompData → Option ℕ
unfolding decode run
verdict filter d = run 0 (decode filter) 0 d
