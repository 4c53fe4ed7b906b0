-- ===== src/Seccomp/Filter.antt =====
-- The generated filter decides as it is meant to.
use nexpack.Prelude.{
  ℕ, ◌+◌, ◌^◌, Bool-cases, inl, inr, ◌≡◌, refl, Bool, false, ◌||◌, some, List, [], ◌∷◌, ◌++◌,
  to_le_bytes, arith, ◌==◌, if◌then◌else◌,
}
use nexpack.Permission.{PermissionSet}
use nexpack.Seccomp.{
  blacklist, block_network_syscalls, seccomp_allow_all, has_network, generate_seccomp_filter,
  seccomp_ret_allow, seccomp_ret_kill, audit_arch_x86_64,
}
use nexpack.Seccomp.Machine.{Insn, decode, SeccompData, run, verdict}

abbrev pub contains : List ℕ → ℕ → Bool
contains [] n = false
contains (m ∷ ms) n = n == m || contains ms n

-- The instructions of the loop.
deny_insns : List ℕ → List Insn
deny_insns [] = []
deny_insns (n ∷ rest) =
    record { code = 0x15; jt = 0; jf = 1; k = n }
    ∷ record { code = 0x06; jt = 0; jf = 0; k = 0x00050001 }
    ∷ deny_insns rest

abbrev ret : ℕ → Insn
ret k = record { code = 0x06; jt = 0; jf = 0; k = k }

run-deny_insns :
    (ns : List ℕ) (nr : ℕ) (d : SeccompData)
    → run 0 (deny_insns ns ++ (ret seccomp_ret_allow ∷ [])) nr d
      ≡ some (if contains ns nr then 0x00050001 else seccomp_ret_allow)
unfolding deny_insns run
run-deny_insns [] nr d = refl
run-deny_insns (n ∷ ns) nr d = ground (arith, run-deny_insns ns nr d)

decode-block_network_syscalls :
    decode block_network_syscalls
    ≡ record { code = 0x20; jt = 0; jf = 0; k = 4 }
      ∷ record { code = 0x15; jt = 1; jf = 0; k = audit_arch_x86_64 }
      ∷ ret seccomp_ret_kill
      ∷ record { code = 0x20; jt = 0; jf = 0; k = 0 }
      ∷ (deny_insns blacklist ++ (ret seccomp_ret_allow ∷ []))
unfolding decode block_network_syscalls deny_insns to_le_bytes
decode-block_network_syscalls = refl

-- What a filter without the network should answer.
abbrev pub network_off : SeccompData → ℕ
network_off d =
    if d.arch == audit_arch_x86_64
    then (if contains blacklist d.nr then 0x00050001 else seccomp_ret_allow)
    else seccomp_ret_kill

verdict-block_network_syscalls :
    (d : SeccompData) → verdict block_network_syscalls d ≡ some (network_off d)
unfolding verdict
verdict-block_network_syscalls d =
    rw decode-block_network_syscalls (ground (arith, run-deny_insns blacklist d.nr d))

-- For every call, the generated filter allows it if the permissions grant the network. Otherwise it
-- kills what comes from another architecture, refuses the listed calls with EPERM, and allows the
-- rest.
pub verdict-generate_seccomp_filter :
    (perm : PermissionSet) (d : SeccompData)
    → verdict (generate_seccomp_filter perm) d
      ≡ some (if has_network perm then seccomp_ret_allow else network_off d)
unfolding generate_seccomp_filter
verdict-generate_seccomp_filter perm d = elim (Bool-cases (has_network perm)) [
  | inl on ↦ rw on (unfold verdict decode run seccomp_allow_all to_le_bytes in refl)
  | inr off ↦ rw off (verdict-block_network_syscalls d)
]

abbrev pub x86_64_call : ℕ → SeccompData
x86_64_call n = record { nr = n; arch = audit_arch_x86_64 }

module _ (perm : PermissionSet) (off : has_network perm ≡ false) where
  off_verdict : (d : SeccompData) → verdict (generate_seccomp_filter perm) d ≡ some (network_off d)
  off_verdict d = rw off at (verdict-generate_seccomp_filter perm d)

  -- `fork` (57), which has nothing to do with the network, is refused too, while `getsockopt` (55)
  -- and `sendmmsg` (307) and a `socket` call through the x32 numbers (bit 30 set) are allowed.
  pub fork_denied :
      (verdict (generate_seccomp_filter perm) (x86_64_call 57) ≡ some 0x00050001)
      × (verdict (generate_seccomp_filter perm) (x86_64_call 55) ≡ some seccomp_ret_allow)
      × (verdict (generate_seccomp_filter perm) (x86_64_call 307) ≡ some seccomp_ret_allow)
      × (verdict (generate_seccomp_filter perm) (x86_64_call (2 ^ 30 + 41))
          ≡ some seccomp_ret_allow)
  fork_denied = (
    off_verdict (x86_64_call 57),
    off_verdict (x86_64_call 55),
    off_verdict (x86_64_call 307),
    off_verdict (x86_64_call (2 ^ 30 + 41)),
  )
