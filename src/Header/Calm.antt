-- ===== src/Header/Calm.antt =====
-- `parse` on arbitrary bytes: it does not panic, and the header that it finds begins inside them.
use nexpack.Prelude.{
  ℕ, ◌+◌, ◌-◌, ◌≤◌, ◌≡◌, some, List, [], ◌∷◌, Bytes, drop, length, ok, ok_or, invalid_format,
  >>=-eq-ok, ok_or-eq-ok, IsCalm, >>=-IsCalm, ok_or-IsCalm, arith,
}
use nexpack.Header.{
  BundleHeader, read, read_text, read_layers, read_network, read_permissions, read_url, read_header,
  parse,
}
use nexpack.Header.Wire.{
  RawText, bad_pointer, bad_utf8, text, Read, bad, value, RawLayer, RawNetwork, bad_network,
  not_in_schema, raw_bool, bad_patterns, raw_patterns, RawPermissions, Message, Capnp,
}
use nexpack.Header.Magic.{find_magic}

read-IsCalm {ℓ} : {A : Type ℓ} (r : Read A) → IsCalm (read r)
read-IsCalm bad = tt
read-IsCalm (value a) = tt

read_text-IsCalm : (r : RawText) → IsCalm (read_text r)
read_text-IsCalm (text t) = tt
read_text-IsCalm bad_pointer = tt
read_text-IsCalm bad_utf8 = tt

read_url-IsCalm : (r : RawText) → IsCalm (read_url r)
read_url-IsCalm (text t) = tt
read_url-IsCalm bad_pointer = tt
read_url-IsCalm bad_utf8 = tt

read_network-IsCalm : (r : RawNetwork) → IsCalm (read_network r)
unfolding read_network
read_network-IsCalm bad_network = tt
read_network-IsCalm not_in_schema = tt
read_network-IsCalm (raw_bool b) = tt
read_network-IsCalm bad_patterns = tt
read_network-IsCalm (raw_patterns p) = tt

read_layers-IsCalm : (layers : List RawLayer) → IsCalm (read_layers layers)
unfolding read_layers
read_layers-IsCalm [] = tt
read_layers-IsCalm (l ∷ r) = >>=-IsCalm (read_text l.digest) _ (read_text-IsCalm l.digest) λ digest.
    >>=-IsCalm (read_text l.role) _ (read_text-IsCalm l.role)
      λ role. >>=-IsCalm (read_layers r) _ (read_layers-IsCalm r) λ rest. tt

read_permissions-IsCalm : (p : RawPermissions) → IsCalm (read_permissions p)
unfolding read_permissions
read_permissions-IsCalm p =
    >>=-IsCalm (read_network p.network) _ (read_network-IsCalm p.network) λ network.
      >>=-IsCalm (read p.filesystem) _ (read-IsCalm p.filesystem) λ filesystem.
        >>=-IsCalm (read p.devices) _ (read-IsCalm p.devices) λ devices.
          >>=-IsCalm (read p.ipc) _ (read-IsCalm p.ipc)
            λ ipc. >>=-IsCalm (read_text p.display) _ (read_text-IsCalm p.display) λ display. tt

read_header-IsCalm :
    (m : Message) (offset encoded_len : ℕ) → IsCalm (read_header m offset encoded_len)
unfolding read_header
read_header-IsCalm m offset encoded_len =
    >>=-IsCalm (read_text m.app_id) _ (read_text-IsCalm m.app_id) λ app_id.
      >>=-IsCalm (read_text m.app_version) _ (read_text-IsCalm m.app_version) λ app_version.
        >>=-IsCalm (read_text m.entrypoint) _ (read_text-IsCalm m.entrypoint) λ entrypoint.
          >>=-IsCalm (read m.layers) _ (read-IsCalm m.layers) λ raw_layers.
            >>=-IsCalm (read_layers raw_layers) _ (read_layers-IsCalm raw_layers) λ layers.
              >>=-IsCalm (read m.permissions) _ (read-IsCalm m.permissions) λ raw.
                >>=-IsCalm (read_permissions raw) _ (read_permissions-IsCalm raw) λ permissions.
                  >>=-IsCalm (read m.signature) _ (read-IsCalm m.signature) λ signature.
                    >>=-IsCalm (read m.sbom) _ (read-IsCalm m.sbom) λ sbom.
                      >>=-IsCalm (read_url m.update_url) _ (read_url-IsCalm m.update_url) λ url. tt

-- The offset is the one that was given.
read_header-offset :
    (m : Message) (offset encoded_len : ℕ) (h : BundleHeader)
    → read_header m offset encoded_len ≡ ok h
    → h.offset ≡ offset
unfolding read_header
read_header-offset m offset encoded_len h e =
    let (app_id, _, e1) = >>=-eq-ok (read_text m.app_id) _ e in
    let (app_version, _, e2) = >>=-eq-ok (read_text m.app_version) _ e1 in
    let (entrypoint, _, e3) = >>=-eq-ok (read_text m.entrypoint) _ e2 in
    let (raw_layers, _, e4) = >>=-eq-ok (read m.layers) _ e3 in
    let (layers, _, e5) = >>=-eq-ok (read_layers raw_layers) _ e4 in
    let (raw, _, e6) = >>=-eq-ok (read m.permissions) _ e5 in
    let (permissions, _, e7) = >>=-eq-ok (read_permissions raw) _ e6 in
    let (signature, _, e8) = >>=-eq-ok (read m.signature) _ e7 in
    let (sbom, _, e9) = >>=-eq-ok (read m.sbom) _ e8 in
    let (url, _, e10) = >>=-eq-ok (read_url m.update_url) _ e9 in ground arith

find_magic-bound :
    (input : Bytes) (position : ℕ) → find_magic input ≡ some position → position + 4 ≤ length input
unfolding find_magic
find_magic-bound [] position h = absurd cc
find_magic-bound (a ∷ []) position h = absurd cc
find_magic-bound (a ∷ b ∷ []) position h = absurd cc
find_magic-bound (a ∷ b ∷ c ∷ []) position h = absurd cc
find_magic-bound (a ∷ b ∷ c ∷ d ∷ r) position h =
    ground (arith, find_magic-bound (b ∷ c ∷ d ∷ r) (position - 1))

module _ (cp : Capnp) where
  pub parse-IsCalm : (input : Bytes) → IsCalm (parse cp input)
  unfolding parse
  parse-IsCalm input =
      >>=-IsCalm (ok_or (find_magic input) (invalid_format "NX02 magic not found")) _
        (ok_or-IsCalm (find_magic input) _)
        λ position.
          >>=-IsCalm (ok_or (cp.read_message (drop (position + 4) input)) _) _
            (ok_or-IsCalm (cp.read_message (drop (position + 4) input)) _)
            λ found.
              >>=-IsCalm (read found.0) _ (read-IsCalm found.0)
                λ m. read_header-IsCalm m position (4 + found.1)

  pub parse-offset :
      (input : Bytes) (h : BundleHeader) → parse cp input ≡ ok h → h.offset + 4 ≤ length input
  unfolding parse
  parse-offset input h e =
      let (position, found, e1) =
        >>=-eq-ok (ok_or (find_magic input) (invalid_format "NX02 magic not found")) _ e in
      let (message, read_it, e2) =
        >>=-eq-ok
          (ok_or (cp.read_message (drop (position + 4) input)) (invalid_format "Cap'n Proto parse"))
          _ e1 in
      let (m, _, e3) = >>=-eq-ok (read message.0) _ e2 in
      let inside =
        find_magic-bound input position
          (ok_or-eq-ok (find_magic input) (invalid_format "NX02 magic not found") found) in
      omega (arith, read_header-offset m position (4 + message.1) h e3, inside)
