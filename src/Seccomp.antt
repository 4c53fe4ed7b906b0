-- ===== src/Seccomp.antt =====
-- nexpackd/src/sandbox.rs: the seccomp filter, as the bytes of a classic BPF program.
pub mod Machine
pub mod Filter
use Prim.Native.Nat.{bit_or}
use nexpack.Prelude.{ℕ, Bool, List, [], ◌∷◌, ◌++◌, Bytes, to_le_bytes, true, if◌then◌else◌}
use nexpack.Permission.{PermissionValue, bool, patterns, PermissionSet}

abbrev pub bpf_ld : ℕ
bpf_ld = 0x00

abbrev pub bpf_jmp : ℕ
bpf_jmp = 0x05

abbrev pub bpf_ret : ℕ
bpf_ret = 0x06

abbrev pub bpf_w : ℕ
bpf_w = 0x00

abbrev pub bpf_abs : ℕ
bpf_abs = 0x20

abbrev pub bpf_jeq : ℕ
bpf_jeq = 0x10

abbrev pub bpf_k : ℕ
bpf_k = 0x00

abbrev pub seccomp_ret_kill : ℕ
seccomp_ret_kill = 0x00000000

abbrev pub seccomp_ret_errno : ℕ
seccomp_ret_errno = 0x00050000

abbrev pub seccomp_ret_allow : ℕ
seccomp_ret_allow = 0x7fff0000

abbrev pub eperm : ℕ
eperm = 1

abbrev pub audit_arch_x86_64 : ℕ
audit_arch_x86_64 = 0xC000003E

unfoldable pub bpf_stmt : ℕ → ℕ → Bytes
bpf_stmt code k = to_le_bytes 2 code ++ (0 ∷ 0 ∷ to_le_bytes 4 k)

unfoldable pub bpf_jump : ℕ → ℕ → ℕ → ℕ → Bytes
bpf_jump code k jt jf = to_le_bytes 2 code ++ (jt ∷ jf ∷ to_le_bytes 4 k)

abbrev pub blacklist : List ℕ
blacklist = 41 ∷ 42 ∷ 43 ∷ 44 ∷ 45 ∷ 46 ∷ 47 ∷ 48 ∷ 49 ∷ 50 ∷ 51 ∷ 52 ∷ 53 ∷ 54 ∷ 57 ∷ 288 ∷ []

unfoldable pub seccomp_allow_all : Bytes
unfolding bpf_stmt
seccomp_allow_all = bpf_stmt (bit_or bpf_ret bpf_k) seccomp_ret_allow

-- The loop over the list: a test of the number that skips the refusal behind it.
unfoldable pub deny_each : List ℕ → Bytes
deny_each [] = []
deny_each (sysno ∷ rest) =
    bpf_jump (bit_or (bit_or bpf_jmp bpf_jeq) bpf_k) sysno 0 1
    ++ (bpf_stmt (bit_or bpf_ret bpf_k) (bit_or seccomp_ret_errno eperm) ++ deny_each rest)

unfoldable pub block_network_syscalls : Bytes
unfolding bpf_stmt bpf_jump deny_each
block_network_syscalls =
    bpf_stmt (bit_or (bit_or bpf_ld bpf_w) bpf_abs) 4
    ++ (bpf_jump (bit_or (bit_or bpf_jmp bpf_jeq) bpf_k) audit_arch_x86_64 1 0
        ++ (bpf_stmt (bit_or bpf_ret bpf_k) seccomp_ret_kill
            ++ (bpf_stmt (bit_or (bit_or bpf_ld bpf_w) bpf_abs) 0
                ++ (deny_each blacklist ++ bpf_stmt (bit_or bpf_ret bpf_k) seccomp_ret_allow))))

-- `PermissionValue::Patterns(_) => true`
unfoldable pub has_network : PermissionSet → Bool
has_network perm = elim perm.network [ bool b ↦ b | patterns _ ↦ true ]

unfoldable pub generate_seccomp_filter : PermissionSet → Bytes
unfolding has_network seccomp_allow_all block_network_syscalls
generate_seccomp_filter perm =
    if has_network perm then seccomp_allow_all else block_network_syscalls
