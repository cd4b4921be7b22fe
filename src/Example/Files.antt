-- ===== src/Example/Files.antt =====
-- Assets: which is served, and how their version is hashed.
use one_time_note.Base.{◌≡◌, ◌≢◌, ◌⊎◌, refl, some, List, [], ◌∷◌, ◌++◌, arith, true, false}
use one_time_note.Base.Text.{Bytes, codes, bytes_eq, has_prefix, split_on}
use one_time_note.Configuration.{has_suffix}
use one_time_note.Web.{Writer, new_writer, set_header, contains_text}
use one_time_note.Assets.{
  Found, directory, regular, hash_input, clean_onto, clean, is_refused_asset, http_not_found,
  immutable_static_cache_control, handle_static_assets,
}
use one_time_note.Assets.Parts.{has_parent}
use one_time_note.Assets.Served.{asset_path_of, handle_static_assets_cases}
use one_time_note.Assets.Hashed.{LacksZero, regular_files, hash_input_injective}

abbrev file_server : Bytes → Writer → Writer
file_server path w = set_header (codes "Location") path w

abbrev version : Bytes
version = codes "0123456789abcdef"

abbrev name : Bytes
name = codes "js/./app.js"

relative : has_prefix name (codes "/") ≡ false
unfolding has_prefix
relative = refl

no_suffix : has_suffix name (codes "/..") ≡ false
unfolding has_suffix bytes_eq
no_suffix = refl

handle_static_assets_cases_example :
    (((version ≢ version) ⊎ (is_refused_asset name ≡ true))
      × (handle_static_assets file_server version version name new_writer
          ≡ http_not_found new_writer))
    ⊎ ((version ≡ version)
        × (has_parent (split_on b'/' name) ≡ false)
        × (handle_static_assets file_server version version name new_writer
            ≡ file_server
                (asset_path_of name)
                (set_header (codes "Cache-Control") immutable_static_cache_control new_writer)))
handle_static_assets_cases_example =
    handle_static_assets_cases file_server version version name new_writer relative no_suffix

app_js :
    handle_static_assets file_server version version name new_writer
    ≡ file_server
        (codes "/js/app.js")
        (set_header (codes "Cache-Control") immutable_static_cache_control new_writer)
unfolding handle_static_assets is_refused_asset bytes_eq has_prefix contains_text clean clean_onto
    split_on
app_js = refl

-- A last part `..` is not seen by the guard.
unguarded : (is_refused_asset (codes "./..") ≡ false) × (clean (codes "./..") ≡ codes "..")
unfolding is_refused_asset bytes_eq has_prefix contains_text clean clean_onto split_on
unguarded = (refl, refl)

abbrev entries : List (Bytes × Found)
entries =
    (codes ".", directory)
    ∷ (codes "app.js", regular (some (codes "let x")))
    ∷ (codes "style.css", regular (some (codes "body")))
    ∷ []

lacks : LacksZero (regular_files entries)
unfolding regular_files
lacks = omega arith

hashed :
    hash_input entries
    ≡ some (
        codes "app.js"
        ++ (0 ∷ (codes "let x" ++ (0 ∷ (codes "style.css" ++ (0 ∷ (codes "body" ++ (0 ∷ []))))))))
unfolding hash_input
hashed = refl

hash_input_injective_example : regular_files entries ≡ regular_files entries
hash_input_injective_example = hash_input_injective entries entries _ lacks lacks hashed hashed

-- A content with zero bytes is not told from two files.
colliding :
    hash_input
      ((codes "a", regular (some (codes "x" ++ (0 ∷ (codes "b" ++ (0 ∷ codes "y")))))) ∷ [])
    ≡ hash_input
        ((codes "a", regular (some (codes "x"))) ∷ (codes "b", regular (some (codes "y"))) ∷ [])
unfolding hash_input
colliding = refl
