-- ===== src/Commands/Leftovers.antt =====
-- What removing an app leaves: its gc root, and so the layer that it names.
use nexpack.Prelude.{
  ◌≡◌, refl, ap, ◌∙◌, Bool, true, Option, some, List, [], ◌∷◌, ◌++◌, Text, text_eq, text_eq_refl,
  arith, Bool-cases, inl, inr,
}
use nexpack.Prelude.Dict
use nexpack.Prelude.Dict.{Dict}
use nexpack.Store.{
  Store, Target, layer_name, root_target, add_name, file_name, root_names, current_names, contains,
  reachable, remove_app,
}
use nexpack.Store.Collect.{lookup-gc}
use nexpack.Commands.{remove_command, gc_command}
use nexpack.Commands.History.{remove_command-layers}

contains-left :
    (name : Text) (xs ys : List Text) → contains name xs ≡ true → contains name (xs ++ ys) ≡ true
unfolding contains
contains-left name [] ys h = absurd cc
contains-left name (x ∷ xs) ys h = ground (arith, contains-left name xs ys)

contains-add_name :
    (name : Text) (new : Option Text) (names : List Text)
    → contains name names ≡ true
    → contains name (add_name new names) ≡ true
unfolding contains add_name
contains-add_name name Option.none names h = h
contains-add_name name (some n) names h = ground arith

contains-root_target :
    (hex : Text) (names : List Text)
    → contains (layer_name hex) (add_name (file_name (root_target hex)) names) ≡ true
unfolding contains add_name
contains-root_target hex names = rw (text_eq_refl (layer_name hex)) refl

contains-root_names :
    (root hex : Text) (roots : Dict Target)
    → Dict.lookup root roots ≡ some (root_target hex)
    → contains (layer_name hex) (root_names roots) ≡ true
unfolding root_names Dict.lookup
contains-root_names root hex [] h = absurd cc
contains-root_names root hex ((r, target) ∷ roots) h = elim (Bool-cases (text_eq r root)) [
  | inl here ↦
      let is_target : target ≡ root_target hex = (let h' = rw here at h in cc) in
      rw is_target (contains-root_target hex (root_names roots))
  | inr there ↦
      contains-add_name (layer_name hex) (file_name target) (root_names roots)
        (contains-root_names root hex roots (rw there at h))
]

remove_command-gc_roots :
    (removes : Bool) (app_id : Text) (s : Store)
    → (remove_command removes app_id s).1.gc_roots ≡ s.gc_roots
unfolding remove_command remove_app
remove_command-gc_roots removes app_id s = ground arith

-- Whatever app is removed, the app of the root itself too, and whichever folders can be removed: the
-- layer that a gc root names, as `install` and `update` make one for an app's last layer, is in the
-- store after the next collection as it was before the removal.
pub gc_command-remove_command :
    (removes_app : Bool) (removes_layer : Text → Bool) (app_id root hex : Text) (s : Store)
    → Dict.lookup root s.gc_roots ≡ some (root_target hex)
    → Dict.lookup
        (layer_name hex)
        (gc_command removes_layer (remove_command removes_app app_id s).1).1.layers
      ≡ Dict.lookup (layer_name hex) s.layers
unfolding gc_command reachable
gc_command-remove_command removes_app removes_layer app_id root hex s rooted =
    let removed = (remove_command removes_app app_id s).1 in
    let roots = remove_command-gc_roots removes_app app_id s in
    let named =
      contains-root_names root hex removed.gc_roots (ap (Dict.lookup root) roots ∙ rooted) in
    let kept =
      contains-left (layer_name hex) (root_names removed.gc_roots) (current_names removed.apps)
        named in
    lookup-gc removes_layer removed (layer_name hex)
    ∙ rw kept (ap (Dict.lookup (layer_name hex)) (remove_command-layers removes_app app_id s))
