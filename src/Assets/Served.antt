-- ===== src/Assets/Served.antt =====
-- Which asset the handler serves.
use one_time_note.Base.{
  ◌≡◌, ◌≢◌, ◌⊎◌, refl, ap, false, true, ◌==◌, Bool-cases, inl, inr, [], ◌∷◌, append-nil,
  reverse-reverse, length, if◌then◌else◌,
}
use one_time_note.Base.Text.{
  Bytes, codes, bytes_eq, bytes_eq_refl, eq_of_bytes_eq, has_prefix, split_on,
}
use one_time_note.Configuration.{has_suffix}
use one_time_note.Web.{Writer, set_header}
use one_time_note.Assets.{
  join, clean, is_refused_asset, http_not_found, immutable_static_cache_control,
  handle_static_assets,
}
use one_time_note.Assets.Parts.{
  has_parent, named_parts, has_parent-split_on, clean_onto-named_parts,
}

-- The path below the root of the assets that the parts of a name lead to.
unfoldable pub asset_path_of : Bytes → Bytes
asset_path_of name =
    let path = join (named_parts (split_on b'/' name)) in
    b'/' ∷ (if length path == 0 then codes "." else path)

clean-named_parts :
    (name : Bytes)
    → has_prefix name (codes "/") ≡ false
    → has_parent (split_on b'/' name) ≡ false
    → b'/' ∷ clean name ≡ asset_path_of name
unfolding clean asset_path_of
clean-named_parts name relative no_parent =
    rw
      (
        relative,
        clean_onto-named_parts false [] (split_on b'/' name) no_parent,
        append-nil,
        reverse-reverse,
      )
      refl

-- For a name that has no slash in front and does not end in `/..`: it is answered 404, and then it has
-- another version than that of the assets or the guard refuses it; or it has that version, no part of
-- the name is `..`, and the file server gets the path of the name's parts without the empty ones and
-- those that are `.`, with the header that keeps the asset in caches.
pub handle_static_assets_cases :
    (file_server : Bytes → Writer → Writer) (version path_version name : Bytes) (w : Writer)
    → has_prefix name (codes "/") ≡ false
    → has_suffix name (codes "/..") ≡ false
    → (((path_version ≢ version) ⊎ (is_refused_asset name ≡ true))
        × (handle_static_assets file_server version path_version name w ≡ http_not_found w))
      ⊎ ((path_version ≡ version)
          × (has_parent (split_on b'/' name) ≡ false)
          × (handle_static_assets file_server version path_version name w
              ≡ file_server
                  (asset_path_of name)
                  (set_header (codes "Cache-Control") immutable_static_cache_control w)))
unfolding handle_static_assets
handle_static_assets_cases file_server version path_version name w relative no_suffix =
    elim (Bool-cases (bytes_eq path_version version)) [
      | inr old ↦ inl (inl (λ p. cc (bytes_eq_refl version, old, p)), rw old refl)
      | inl current ↦ elim (Bool-cases (is_refused_asset name)) [
        | inl refused ↦ inl (inr refused, rw (current, refused) refl)
        | inr let_through ↦
            let no_parent = has_parent-split_on name let_through no_suffix in
            inr (
              eq_of_bytes_eq path_version version current,
              no_parent,
              rw (current, let_through)
                  (ap
                    (λ p.
                      file_server p
                        (set_header (codes "Cache-Control") immutable_static_cache_control w))
                    (clean-named_parts name relative no_parent)),
            )
      ]
    ]
