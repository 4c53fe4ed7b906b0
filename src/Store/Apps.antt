-- ===== src/Store/Apps.antt =====
-- `list_apps`: the names of the folders in `apps/`. (Errors while the folder is read are left out.)
use nexpack.Prelude.{List, map, Text, IsSorted, sort_by, sort_by_lem}
use mathlib.Core.List.{Perm}
use nexpack.Prelude.Dict.{Dict}
use nexpack.Store.{App, Store}

abbrev pub folder_names : Dict App → List Text
folder_names apps = map (λ entry. entry.0) apps

unfoldable pub list_apps : Store → List Text
unfolding sort_by
list_apps s = sort_by (λ name. name) (folder_names s.apps)

-- The list is sorted, and has each folder's name once.
pub list_apps_lem :
    (s : Store)
    → IsSorted (λ (name : Text). name) (list_apps s) × Perm (list_apps s) (folder_names s.apps)
unfolding list_apps
list_apps_lem s = sort_by_lem (λ name. name) (folder_names s.apps)
