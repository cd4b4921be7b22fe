-- ===== src/Assets.antt =====
-- static_assets.go: the version of the embedded assets, and the handler that serves them. The walk of the
-- file system, SHA-256 and `http.FileServerFS` are parameters.
pub mod Parts
pub mod Served
pub mod Hashed
use one_time_note.Base.{
  ℕ, ◌+◌, ◌-◌, ◌/◌, ◌%◌, Bool, not, ◌||◌, Option, none, some, List, [], ◌∷◌, ◌++◌, ◌==◌, ltb,
  length, take, reverse, if◌then◌else◌,
}
use one_time_note.Base.Text.{Bytes, codes, bytes_eq, has_prefix, split_on}
use one_time_note.Base.Partial.{◌>>=◌}
use one_time_note.Web.{Writer, contains_text, http_error, set_header}

-- What the walk finds at one name: an error, a directory, a file whose metadata cannot be read, one that
-- is not regular, or a regular file with its content, if it can be read.
pub data Found : Type 0 where
  walk_error directory no_info irregular : Found
  regular : Option Bytes → Found

-- What the hash is fed, from what the walk finds in its order.
unfoldable pub hash_input : List (Bytes × Found) → Option Bytes
hash_input [] = some []
hash_input ((name, walk_error) ∷ entries) = none
hash_input ((name, directory) ∷ entries) = hash_input entries
hash_input ((name, no_info) ∷ entries) = none
hash_input ((name, irregular) ∷ entries) = hash_input entries
hash_input ((name, regular none) ∷ entries) = none
hash_input ((name, regular (some content)) ∷ entries) = do
  later ← hash_input entries
  some (name ++ (0 ∷ (content ++ (0 ∷ later))))

abbrev pub hex_digit : ℕ → ℕ
hex_digit n = if ltb n 10 then b'0' + n else b'a' + (n - 10)

-- `hex.EncodeToString`
unfoldable pub hex : Bytes → Bytes
hex [] = []
hex (c ∷ s) = hex_digit (c / 16) ∷ (hex_digit (c % 16) ∷ hex s)

unfoldable pub new_asset_version : (sum256 : Bytes → Bytes) → List (Bytes × Found) → Option Bytes
new_asset_version sum256 entries = do
  input ← hash_input entries
  some (take 16 (hex (sum256 input)))

-- The parts of a path behind those that are kept, of which the last is the first.
unfoldable pub clean_onto : (rooted : Bool) (kept : List Bytes) → List Bytes → List Bytes
clean_onto rooted kept [] = kept
clean_onto rooted kept (part ∷ parts) =
    if length part == 0 || bytes_eq part (codes ".")
    then clean_onto rooted kept parts
    else if bytes_eq part (codes "..")
    then elim kept [
      | [] ↦ clean_onto rooted (if rooted then [] else part ∷ []) parts
      | top ∷ rest ↦
          clean_onto rooted (if bytes_eq top (codes "..") then part ∷ top ∷ rest else rest) parts
    ]
    else clean_onto rooted (part ∷ kept) parts

abbrev pub join : List Bytes → Bytes
join [] = []
join (part ∷ []) = part
join (part ∷ more ∷ parts) = part ++ (b'/' ∷ join (more ∷ parts))

-- `path.Clean(name)`
unfoldable pub clean : Bytes → Bytes
clean name =
    let rooted = has_prefix name (codes "/") in
    let text = join (reverse (clean_onto rooted [] (split_on b'/' name))) in
    if rooted then b'/' ∷ text else if length text == 0 then codes "." else text

unfoldable pub is_refused_asset : Bytes → Bool
is_refused_asset name =
    length name == 0
    || bytes_eq name (codes ".")
    || bytes_eq name (codes "..")
    || has_prefix name (codes "../")
    || contains_text (codes "/../") name

unfoldable pub http_not_found : Writer → Writer
http_not_found w = http_error (codes "404 page not found") 404 w

abbrev pub immutable_static_cache_control : Bytes
immutable_static_cache_control = codes "public, max-age=31536000, immutable"

unfoldable pub handle_static_assets :
    (file_server : Bytes → Writer → Writer) (version : Bytes)
    → (path_version asset_name : Bytes) → Writer
    → Writer
handle_static_assets file_server version path_version asset_name w =
    if not (bytes_eq path_version version)
    then http_not_found w
    else if is_refused_asset asset_name
    then http_not_found w
    else file_server (b'/' ∷ clean asset_name)
        (set_header (codes "Cache-Control") immutable_static_cache_control w)
