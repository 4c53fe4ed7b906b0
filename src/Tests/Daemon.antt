-- ===== src/Tests/Daemon.antt =====
-- The daemon: the sandbox's filter and arguments, and the table of mounts.
use nexpack.Prelude.{
  ◌||◌, arith, ◌⊎◌, none, ◌≡◌, refl, true, false, ◌&&◌, leb, text_eq, if◌then◌else◌, none, some,
  List, [], ◌∷◌, ◌++◌, map, codes,
}
use nexpack.Prelude.Dict
use nexpack.Seccomp.{has_network, generate_seccomp_filter, seccomp_ret_allow}
use nexpack.Seccomp.Machine.{verdict}
use nexpack.Seccomp.Filter.{network_off, verdict-generate_seccomp_filter}
use nexpack.Sandbox.{Env, build_bwrap_args}
use nexpack.Sandbox.Bwrap.{Op, pid, uts, ipc, user, option, read_args, writable_binds, unshared}
use nexpack.Sandbox.Isolation.{declared, net_unshared, build_bwrap_args_isolates}
use nexpack.Mounts.{DaemonState, mount, unmount, clean, run, idle_round}
use nexpack.Mounts.Refcount.{refcount_of, refcount_of-run}
use nexpack.Mounts.Cleaner.{kept, lookup-idle_round}
use nexpack.Tests.Fixtures.{sealed}

off : has_network sealed ≡ false
unfolding has_network
off = refl

verdict-generate_seccomp_filter_example :
    verdict (generate_seccomp_filter sealed) (record { nr = 1; arch = 3 })
    ≡ some (
        if has_network sealed then seccomp_ret_allow else network_off (record { nr = 1; arch = 3 }))
verdict-generate_seccomp_filter_example =
    verdict-generate_seccomp_filter sealed (record { nr = 1; arch = 3 })

-- A system where `HOME` is set, and lower-case letters are the alphanumeric characters.
abbrev pub home : Env
home = record {
  var = λ name.
      if text_eq name (codes "home") || text_eq name (codes "HOME")
      then some (codes "/home/u")
      else none;
  exists = λ path. true;
  is_alphanumeric = λ c. leb b'a' c && leb c b'z';
}

build_bwrap_args_isolates_example :
    (ops : List Op) × (read_args option
        (build_bwrap_args home (codes "/r") sealed (codes "/bin/app") (codes "-v" ∷ []))
      ≡ some (ops, (codes "/run/app" ++ codes "/bin/app") ∷ (codes "-v" ∷ [])))
    × (writable_binds ops ≡ map (declared home) sealed.filesystem)
    × (unshared ops ≡ pid ∷ uts ∷ ipc ∷ user ∷ net_unshared home sealed)
build_bwrap_args_isolates_example =
    build_bwrap_args_isolates home sealed (codes "/r") (codes "/bin/app") (codes "-v" ∷ [])

abbrev pub no_mounts : DaemonState
no_mounts = record { mounts = []; idle_timeout = 300 }

-- Two mounts, a failing unmount of another app, a cleaning and one unmount leave one lease.
refcount_of-run_example :
    refcount_of (codes "a") (
      run no_mounts (
        mount (codes "a") (codes "/m") 1
        ∷ mount (codes "a") (codes "/m") 2
        ∷ unmount false (codes "b") 3
        ∷ clean true (codes "a") 900
        ∷ unmount true (codes "a") 901
        ∷ []))
    ≡ 1
unfolding text_eq Dict.lookup
refcount_of-run_example = refcount_of-run (codes "a") no_mounts (
    mount (codes "a") (codes "/m") 1
    ∷ mount (codes "a") (codes "/m") 2
    ∷ unmount false (codes "b") 3
    ∷ clean true (codes "a") 900
    ∷ unmount true (codes "a") 901
    ∷ [])

abbrev one_idle : DaemonState
one_idle = record {
  mounts =
      (codes "a", record { app_id = codes "a"; rootfs = codes "/m"; refcount = 0; last_active = 5 })
      ∷ [];
  idle_timeout = 300;
}

lookup-idle_round_example :
    (kept true 305 300 (Dict.lookup (codes "a") one_idle.mounts) ≡ none
      → Dict.lookup (codes "a") (idle_round (λ id. true) 305 (λ id. 306) one_idle).mounts ≡ none)
    × ((Dict.lookup (codes "a") (idle_round (λ id. true) 305 (λ id. 306) one_idle).mounts
          ≡ Dict.lookup (codes "a") one_idle.mounts)
        ⊎ (Dict.lookup (codes "a") (idle_round (λ id. true) 305 (λ id. 306) one_idle).mounts
            ≡ kept true 306 300 (Dict.lookup (codes "a") one_idle.mounts)))
lookup-idle_round_example =
    lookup-idle_round (λ id. true) (codes "a") 305 (λ id. 306) one_idle (omega arith)
