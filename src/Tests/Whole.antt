-- ===== src/Tests/Whole.antt =====
-- Commands and the daemon, one after the other.
use nexpack.Prelude.{
  false, ◌≡◌, refl, sym, subst, true, none, some, List, [], ◌∷◌, ◌++◌, Text, codes, Bytes, All,
  Outcome, ok, ok-injective,
}
use nexpack.Store.Sound.{IsSound}
use nexpack.Update.{ReleaseInfo, UpdateFeed}
use nexpack.Update.Background.Honest.{IsGenuine, IsHonest}
use nexpack.Daemon.{mount_request, unmount_request}
use nexpack.Daemon.Start.{Reading}
use nexpack.Commands.Line.{Commands, gc, remove, trust_policy, Machine}
use nexpack.Interleaved.{Whole, Step, command, request, clean, check, start, steps}
use nexpack.Interleaved.Kept.{IsCareful, steps-IsSound}
use nexpack.Tests.Fixtures.{toy_hex}
use nexpack.Tests.Stores.{
  good_disk, no_files, no_files-IsSound, codec, small_bundle, desktop, new_release,
}
use nexpack.Tests.Commands.{good_disk-IsAtomic, network}
use nexpack.Tests.Trusts.{setting}
use nexpack.Tests.Overlays
use nexpack.Tests.Packs

abbrev machine : Machine
machine = record {
  has_home = true;
  read_file = λ path. ok small_bundle.contents;
  disk = good_disk;
  home = desktop;
  net = network;
  removes_app = true;
  removes_layer = λ name. true;
  input = [];
  broken = false;
  setting = setting;
  client = Overlays.client;
  packer = Packs.host;
  stub_bytes = [];
  signer = record {
    files = Packs.host.mkfs.files;
    temp_dir = codes "/tmp";
    process_id = codes "7";
    run_status = λ path args input. ok true;
    read_after = λ path args input file. ok (codes "{}");
    is_json = λ bytes. true;
    file_stem = λ path. some path;
  };
  appimages = record {
    files = Packs.host.mkfs.files;
    read_file = λ path. ok path;
    temp_dir = codes "/tmp";
    process_id = codes "7";
    make_dir = λ path. ok tt;
    run_status = λ path args. ok true;
    to_string = λ n. codes "0";
    mkfs = Packs.host.mkfs;
    env = desktop.env;
    to_lowercase = λ t. t;
    file_stem = λ path. some path;
    names_in = λ path. [];
    folders = record { is_dir = λ path. false; read_dir = λ dir. none; path_max = 4096 };
  };
}

abbrev reading : Reading
reading = record {
  env = desktop.env;
  read_to_string = λ path. ok (codes "idle_timeout = 5");
  from_str = λ text. some (record { idle_timeout = some 5; update_interval = none });
}

-- Install, mount, look for updates, remove, collect, unmount.
abbrev path : List Step
path =
    start reading
    ∷ command machine (Commands.install (codes "app.nxpk"))
    ∷ request Overlays.host 1 (mount_request (codes "app.nxpk") true)
    ∷ check good_disk network (codes "org.example.app")
    ∷ command machine (trust_policy (some (codes "org.*")) (some (codes "me")) true)
    ∷ command machine (remove (codes "org.example.app"))
    ∷ command machine gc
    ∷ clean Overlays.host.sys 9 (codes "org.example.app")
    ∷ request Overlays.host 10 (unmount_request (codes "org.example.app"))
    ∷ []

abbrev whole : Whole
whole = record {
  user = record { store = no_files; entries = []; trust_file = none; bundles = [] };
  table = [];
  state = Overlays.world.state;
}

release-IsGenuine : All (IsGenuine toy_hex network) new_release.layers
unfolding nexpack.Layer.strip_blake3 nexpack.Prelude.strip_prefix
release-IsGenuine = ((λ piece e. sym (ok-injective e)), tt)

network-IsHonest : IsHonest toy_hex network
network-IsHonest url other e =
    subst
      (λ (f : UpdateFeed).
        All (λ (r : ReleaseInfo). All (IsGenuine toy_hex network) r.layers) f.releases)
      (ok-injective e) (release-IsGenuine, tt)

path-IsCareful : All (IsCareful toy_hex codec) path
path-IsCareful =
    let atomic = good_disk-IsAtomic in
    (
      tt,
      (
        atomic,
        (atomic, ((atomic, network-IsHonest), (atomic, (atomic, (atomic, (tt, (atomic, tt))))))),
      ),
    )

steps-IsSound_example : IsSound toy_hex (steps toy_hex codec path whole).user.store
steps-IsSound_example = steps-IsSound toy_hex codec path whole path-IsCareful no_files-IsSound
