-- ===== src/Tests/Overlays.antt =====
-- Overlays, the daemon's requests, and starting a program.
use nexpack.Prelude.{
  ℕ, ◌≡◌, refl, Bool, true, false, not, ◌&&◌, Bool-cases, inl, inr, Option, none, some, List, [],
  ◌∷◌, ◌++◌, map, Text, codes, text_eq, Bytes, All, Outcome, ok,
}
use nexpack.Prelude.Dict
use nexpack.Paths.{Files, join}
use nexpack.Store.{Store, layer_name}
use nexpack.Mounts.{run}
use nexpack.Mounts.Refcount.{refcount_of, leases}
use nexpack.Overlay.{exited, System, overlay, lowerdir, run_dir, build_overlay}
use nexpack.Overlay.Lower.{first_with, last_with, split_colons, lowerdir_last_wins}
use nexpack.Overlay.Built.{HasErofs, mount_points, build_overlay-ok}
use nexpack.Sandbox.{option_args}
use nexpack.Sandbox.Bwrap.{
  Op, pid, uts, ipc, user, option, read_args, writable_binds, unshared, filters,
}
use nexpack.Sandbox.Isolation.{declared, net_unshared}
use nexpack.Seccomp.{generate_seccomp_filter}
use nexpack.Daemon.{
  Host, World, Request, mount_request, unmount_request, list_request, reply_for, serve,
  mount_response,
}
use nexpack.Daemon.Served.{all_events, serve_refines}
use nexpack.Run.{Client, Program, bwrap_command, launch_sandboxed}
use nexpack.Run.Filtered.{IsOptions, launch_sandboxed-filters}
use nexpack.Tests.Fixtures.{two_layers, sealed, toy_hex}
use nexpack.Tests.Stores.{good_disk, no_files, small_bundle, codec}
use nexpack.Tests.Daemon.{home, no_mounts}

abbrev files : Files
files = record {
  path_dirs = codes "/bin" ∷ [];
  store_entries = [];
  is_file = λ path. true;
  exe_dir = none;
}

-- Only erofsfuse and fuse-overlayfs can mount.
abbrev sys : System
sys = record {
  files = files;
  exists = λ path. false;
  create_dir_all = λ path. true;
  mount_erofs = λ image point. false;
  erofsfuse = λ bin image point. true;
  mount_overlay = λ options merged. false;
  fuse_overlayfs = λ bin lower upper work merged. true;
  unmounts = λ cmd path. exited true;
}

abbrev with_images : Store
with_images = record no_files {
  layers =
      (layer_name (codes "ab"), some (codes "ab"))
      ∷ (layer_name (codes "c"), some (codes "c"))
      ∷ [];
}

abbrev rootfs : Text
rootfs = codes "/run/nexpack/app/rootfs"

build_overlay-ok_example :
    (rootfs ≡ join (run_dir (codes "/run") (codes "app")) (codes "rootfs"))
    × (Dict.lookup rootfs
          (build_overlay sys
            (codes "/s")
            (codes "/run")
            (codes "app")
            two_layers.layers
            with_images
            []).1
        ≡ some (
            overlay
              (lowerdir (mount_points (codes "/s") two_layers.layers))
              (join (run_dir (codes "/run") (codes "app")) (codes "upper"))
              (join (run_dir (codes "/run") (codes "app")) (codes "work"))))
    × All
        (λ p.
          HasErofs
            (codes "/s")
            p
            (build_overlay sys
              (codes "/s")
              (codes "/run")
              (codes "app")
              two_layers.layers
              with_images
              []).1)
        (mount_points (codes "/s") two_layers.layers)
unfolding build_overlay nexpack.Overlay.mount_layers nexpack.Overlay.mount_layer
    nexpack.Overlay.then_with nexpack.Overlay.made nexpack.Overlay.mount_merged
    nexpack.Overlay.mount_erofs nexpack.Overlay.mount_fuse nexpack.Overlay.clear_stale
    nexpack.Overlay.try_overlay_mount nexpack.Overlay.try_fuse_overlay_mount
    nexpack.Overlay.overlay_fuse nexpack.Paths.find_binary nexpack.Paths.first_file join
    nexpack.Store.has_layer Dict.lookup Dict.insert nexpack.Layer.digest_hex
    nexpack.Layer.strip_blake3 nexpack.Prelude.strip_prefix text_eq
build_overlay-ok_example =
    build_overlay-ok sys (codes "/s") (codes "/run") (codes "app") two_layers.layers with_images []
      rootfs (refl, (refl, tt)) (refl, (refl, tt)) refl

-- The second of two layers has the file.
lowerdir_last_wins_example :
    first_with
      (λ dir. not (text_eq dir []))
      (split_colons (lowerdir (codes "/a" ∷ codes "/b" ∷ [])))
    ≡ last_with (λ dir. not (text_eq dir [])) (codes "/a" ∷ codes "/b" ∷ [])
unfolding text_eq
lowerdir_last_wins_example =
    lowerdir_last_wins (λ dir. not (text_eq dir [])) (codes "/a" ∷ codes "/b" ∷ [])
      ((refl, (refl, tt)), ((refl, (refl, tt)), tt)) refl

abbrev pub host : Host
host = record {
  disk = good_disk;
  sys = sys;
  env = home;
  runtime_dir = codes "/run";
  read_file = λ path. ok small_bundle.contents;
}

abbrev pub world : World
world = record { store = no_files; table = []; state = no_mounts }

abbrev requests : List (ℕ × Request)
requests =
    (1, mount_request (codes "app.nxpk") true)
    ∷ (2, list_request)
    ∷ (3, mount_request (codes "app.nxpk") true)
    ∷ (4, unmount_request (codes "org.example.app"))
    ∷ []

serve_refines_example :
    ((serve toy_hex codec host requests world).state
      ≡ run no_mounts (all_events toy_hex codec host requests world))
    × ((app_id : Text)
        → refcount_of app_id (serve toy_hex codec host requests world).state
          ≡ leases app_id
              (refcount_of app_id no_mounts)
              (all_events toy_hex codec host requests world))
serve_refines_example = serve_refines toy_hex codec host requests world

abbrev pub client : Client
client = record {
  files = files;
  read_file = λ path. ok small_bundle.contents;
  connect = ok tt;
  daemon = λ request. ok (mount_response (reply_for toy_hex codec host small_bundle rootfs));
  setup_seccomp_fd = λ filter. ok (codes "3");
}

-- A test of every argument.
are_options : List Text → Bool
are_options [] = true
are_options (arg ∷ args) = not (text_eq arg (codes "--")) && are_options args

are_options-IsOptions : (args : List Text) → are_options args ≡ true → IsOptions args
unfolding are_options
are_options-IsOptions [] h = tt
are_options-IsOptions (arg ∷ args) h = elim (Bool-cases (text_eq arg (codes "--"))) [
  | inl end ↦ absurd (let h' = rw end at h in cc)
  | inr operand ↦ (operand, are_options-IsOptions args (rw operand at h))
]

option_args-IsOptions : IsOptions (option_args home rootfs sealed)
unfolding option_args nexpack.Sandbox.sys_args nexpack.Sandbox.filesystem_args
    nexpack.Sandbox.network_args nexpack.Sandbox.device_args nexpack.Sandbox.ipc_args
    nexpack.Sandbox.display_args nexpack.Sandbox.var_args nexpack.Sandbox.runtime_bind
    nexpack.Sandbox.ro_bind_existing nexpack.Sandbox.set_env_present nexpack.Sandbox.device_arg
    nexpack.Sandbox.device_path nexpack.Seccomp.has_network text_eq are_options
    nexpack.Sandbox.Expand.shellexpand
option_args-IsOptions = are_options-IsOptions (option_args home rootfs sealed) refl

abbrev program : Program
program = record {
  path = codes "/bin/bwrap";
  args =
      bwrap_command (some (codes "3")) (reply_for toy_hex codec host small_bundle rootfs).bwrap_args
        (codes "-v" ∷ []);
}

launch_sandboxed-filters_example :
    (fd : Text) × (ops : List Op) × (client.setup_seccomp_fd (generate_seccomp_filter sealed)
      ≡ ok fd)
    × (read_args option program.args
        ≡ some (ops, (codes "/run/app" ++ codes "/bin/app") ∷ codes "-v" ∷ []))
    × (filters ops ≡ fd ∷ [])
    × (writable_binds ops ≡ map (declared home) sealed.filesystem)
    × (unshared ops ≡ pid ∷ uts ∷ ipc ∷ user ∷ net_unshared home sealed)
unfolding launch_sandboxed nexpack.Paths.find_bwrap nexpack.Paths.first_file join
    nexpack.Run.filter_fd generate_seccomp_filter nexpack.Seccomp.has_network
    nexpack.Seccomp.block_network_syscalls nexpack.Seccomp.bpf_stmt nexpack.Prelude.to_le_bytes
launch_sandboxed-filters_example =
    launch_sandboxed-filters toy_hex codec client host small_bundle rootfs (codes "-v" ∷ []) program
      option_args-IsOptions refl
