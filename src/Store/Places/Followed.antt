-- ===== src/Store/Places/Followed.antt =====
-- The store's links as the kernel follows them, from the folder that holds the link.
use nexpack.Prelude.{
  ◌≡◌, ◌≢◌, refl, sym, ap, ◌∙◌, false, List, [], ◌∷◌, ◌++◌, append_assoc, Option-cases, inl, inr,
  length, length-append, Text, codes, text_eq, ok, arith, if◌then◌else◌,
}
use nexpack.Paths.{join}
use nexpack.Store.Places.Components.{
  components, components_from, IsName, components-join, components-name,
}
use nexpack.Sandbox.Expand.{Env}
use nexpack.Store.{Target, layer_name, current_target, root_target}
use nexpack.Store.Places.{
  user, nexpack_home, layers_dir, apps_dir, layer_dir, layer_image, gc_roots_dir, app_dir,
}

-- The folder above.
unfoldable parent : List Text → List Text
parent [] = []
parent (d ∷ []) = []
parent (d ∷ e ∷ dirs) = d ∷ parent (e ∷ dirs)

-- Where the target of a link in this folder leads.
unfoldable pub follow : List Text → Target → List Text
unfolding parent
follow dir [] = dir
follow dir (name ∷ target) =
    let up = follow (parent dir) target in
    let down = follow (dir ++ (name ∷ [])) target in if text_eq name (codes "..") then up else down

parent-append : (dirs : List Text) (name : Text) → parent (dirs ++ (name ∷ [])) ≡ dirs
unfolding parent
parent-append [] name = refl
parent-append (d ∷ []) name = refl
parent-append (d ∷ e ∷ dirs) name = ap (λ l. d ∷ l) (parent-append (e ∷ dirs) name)

-- The store's folder is one below the program's.
user-components :
    (env : Env) (root home : Text)
    → user env ≡ ok root
    → nexpack_home env ≡ ok home
    → components root ≡ components home ++ (codes "store" ∷ [])
unfolding user nexpack_home components components_from
user-components env root home in_user in_home = elim (Option-cases (env.var (codes "HOME"))) [
  | inl unset ↦ absurd (let h = rw unset at in_user in cc)
  | inr (var, set) ↦
      let is_root : join var (codes ".local/share/nexpack/store") ≡ root =
        (let h = rw set at in_user in cc) in
      let is_home : join var (codes ".local/share/nexpack") ≡ home =
        (let h = rw set at in_home in cc) in
      sym (ap components is_root)
      ∙ (components-join var (codes ".local/share/nexpack/store") refl
          ∙ (sym (
                append_assoc (components var) (components (codes ".local/share/nexpack"))
                  (codes "store" ∷ []))
              ∙ ap (λ l. l ++ (codes "store" ∷ []))
                  (sym (components-join var (codes ".local/share/nexpack") refl)
                    ∙ ap components is_home)))
]

layer_dir-components :
    (root digest : Text)
    → IsName (layer_name digest)
    → components (layer_dir root digest)
      ≡ components root ++ (codes "layers" ∷ layer_name digest ∷ [])
unfolding components components_from
layer_dir-components root digest name =
    components-name (layers_dir root) (layer_name digest) name
    ∙ (ap (λ l. l ++ (layer_name digest ∷ [])) (components-join root (codes "layers") refl)
        ∙ append_assoc (components root) (codes "layers" ∷ []) (layer_name digest ∷ []))

layer_image-components :
    (root digest : Text)
    → IsName (layer_name digest)
    → components (layer_image root digest)
      ≡ components root ++ (codes "layers" ∷ layer_name digest ∷ codes "image.erofs" ∷ [])
unfolding components components_from
layer_image-components root digest name =
    components-join (layer_dir root digest) (codes "image.erofs") refl
    ∙ (ap (λ l. l ++ (codes "image.erofs" ∷ [])) (layer_dir-components root digest name)
        ∙ append_assoc (components root) (codes "layers" ∷ layer_name digest ∷ [])
            (codes "image.erofs" ∷ []))

app_dir-components :
    (root app_id : Text) (top : List Text)
    → IsName app_id
    → components root ≡ top ++ (codes "store" ∷ [])
    → components (app_dir root app_id)
      ≡ ((top ++ (codes "store" ∷ [])) ++ (codes "apps" ∷ [])) ++ (app_id ∷ [])
unfolding components components_from
app_dir-components root app_id top name below =
    components-name (apps_dir root) app_id name
    ∙ ap (λ l. l ++ (app_id ∷ []))
        (components-join root (codes "apps") refl ∙ ap (λ l. l ++ (codes "apps" ∷ [])) below)

follow-up :
    (dir : List Text) (name : Text) (target : Target)
    → follow (dir ++ (name ∷ [])) (codes ".." ∷ target) ≡ follow dir target
unfolding follow text_eq
follow-up dir name target = ap (λ d. follow d target) (parent-append dir name)

follow-down :
    (dir : List Text) (name : Text) (target : Target)
    → text_eq name (codes "..") ≡ false
    → follow dir (name ∷ target) ≡ follow (dir ++ (name ∷ [])) target
unfolding follow
follow-down dir name target h = rw h refl

-- Down into a layer's folder, from the folder above `layers`.
follow-layer :
    (dir : List Text) (digest : Text) (target : Target)
    → follow dir (codes "layers" ∷ layer_name digest ∷ target)
      ≡ follow (dir ++ (codes "layers" ∷ layer_name digest ∷ [])) target
unfolding text_eq
follow-layer dir digest target =
    follow-down dir (codes "layers") (layer_name digest ∷ target) refl
    ∙ (follow-down (dir ++ (codes "layers" ∷ [])) (layer_name digest) target refl
        ∙ ap (λ d. follow d target)
            (append_assoc dir (codes "layers" ∷ []) (layer_name digest ∷ [])))

module _ (root digest : Text) (layer : IsName (layer_name digest)) where
  root_followed :
      follow (components (gc_roots_dir root)) (root_target digest)
      ≡ components (layer_dir root digest)
  unfolding components components_from follow
  root_followed =
      ap (λ d. follow d (root_target digest)) (components-join root (codes "gc-roots") refl)
      ∙ (follow-up (components root) (codes "gc-roots") (codes "layers" ∷ layer_name digest ∷ [])
          ∙ (follow-layer (components root) digest []
              ∙ sym (layer_dir-components root digest layer)))

  current_followed :
      (app_id : Text) (top : List Text)
      → IsName app_id
      → components root ≡ top ++ (codes "store" ∷ [])
      → follow (components (app_dir root app_id)) (current_target digest)
        ≡ top ++ (codes "layers" ∷ layer_name digest ∷ codes "image.erofs" ∷ [])
  unfolding components components_from follow text_eq
  current_followed app_id top name below =
      let image : Target = codes "layers" ∷ layer_name digest ∷ codes "image.erofs" ∷ [] in
      let inner : List Text = top ++ (codes "layers" ∷ layer_name digest ∷ []) in
      ap (λ d. follow d (current_target digest)) (app_dir-components root app_id top name below)
      ∙ (follow-up ((top ++ (codes "store" ∷ [])) ++ (codes "apps" ∷ [])) app_id
            (codes ".." ∷ codes ".." ∷ image)
          ∙ (follow-up (top ++ (codes "store" ∷ [])) (codes "apps") (codes ".." ∷ image)
              ∙ (follow-up top (codes "store") image
                  ∙ (follow-layer top digest (codes "image.erofs" ∷ [])
                      ∙ (follow-down inner (codes "image.erofs") [] refl
                          ∙ append_assoc top (codes "layers" ∷ layer_name digest ∷ [])
                              (codes "image.erofs" ∷ []))))))

-- Two lists that differ in length differ.
longer-differs : (xs rest : List Text) (x : Text) → xs ++ rest ≢ (xs ++ (x ∷ [])) ++ rest
longer-differs xs rest x same =
    let lengths = ap length same in
    omega (
      arith,
      lengths,
      length-append xs rest,
      length-append (xs ++ (x ∷ [])) rest,
      length-append xs (x ∷ []),
    )

-- In the store of a user whose `HOME` is set, where the app's id and the layer's folder are names:
-- the gc root leads to the layer's folder. The link `current` of an app leads to where the layer's
-- image would be if the store were the folder above it; that is another path than the image's.
pub follow-current_target :
    (env : Env) (root home app_id digest : Text)
    → user env ≡ ok root
    → nexpack_home env ≡ ok home
    → IsName app_id
    → IsName (layer_name digest)
    → (follow (components (gc_roots_dir root)) (root_target digest)
        ≡ components (layer_dir root digest))
      × (follow (components (app_dir root app_id)) (current_target digest)
          ≡ components (layer_image home digest))
      × (follow (components (app_dir root app_id)) (current_target digest)
          ≢ components (layer_image root digest))
follow-current_target env root home app_id digest in_user in_home name layer =
    let image : List Text = codes "layers" ∷ layer_name digest ∷ codes "image.erofs" ∷ [] in
    let below = user-components env root home in_user in_home in
    let leads = current_followed root digest layer app_id (components home) name below in
    let astray = leads ∙ sym (layer_image-components home digest layer) in
    (
      root_followed root digest layer,
      astray,
      λ same. longer-differs (components home) image (codes "store") (
          sym leads
          ∙ (same ∙ (layer_image-components root digest layer ∙ ap (λ l. l ++ image) below))),
    )
