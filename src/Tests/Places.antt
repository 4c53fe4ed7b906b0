-- ===== src/Tests/Places.antt =====
-- The store below /home/me, with one app and one layer.
use nexpack.Prelude.{◌≡◌, ◌≢◌, refl, Text, ok, codes, text_eq}
use nexpack.Paths.{join}
use nexpack.Store.{current_target, root_target, layer_name}
use nexpack.Store.Places.{user, nexpack_home, layer_dir, layer_image, gc_roots_dir, app_dir}
use nexpack.Store.Places.Components.{components, components_from, IsName}
use nexpack.Store.Places.Followed.{follow, follow-current_target}
use nexpack.Tests.Stores.{desktop}

abbrev root : Text
root = codes "/home/me/.local/share/nexpack/store"

abbrev program_home : Text
program_home = codes "/home/me/.local/share/nexpack"

in_user : user desktop.env ≡ ok root
unfolding user join
in_user = refl

in_home : nexpack_home desktop.env ≡ ok program_home
unfolding nexpack_home join
in_home = refl

app_name : IsName (codes "org.example.app")
unfolding components components_from text_eq
app_name = (refl, refl, refl)

layer : IsName (layer_name (codes "c"))
unfolding components components_from text_eq
layer = (refl, refl, refl)

follow-current_target_example :
    (follow (components (gc_roots_dir root)) (root_target (codes "c"))
      ≡ components (layer_dir root (codes "c")))
    × (follow (components (app_dir root (codes "org.example.app"))) (current_target (codes "c"))
        ≡ components (layer_image program_home (codes "c")))
    × (follow (components (app_dir root (codes "org.example.app"))) (current_target (codes "c"))
        ≢ components (layer_image root (codes "c")))
follow-current_target_example =
    follow-current_target desktop.env root program_home (codes "org.example.app") (codes "c")
      in_user in_home app_name layer
