-- ===== src/Application/Routing.antt =====
-- The patterns of `newServerHandler` in main.go.
use one_time_note.Base.{
  ℕ, ◌≡◌, ◌⊎◌, inl, inr, Bool, true, not, ◌&&◌, ◌||◌, List, [], ◌∷◌, ◌++◌, ◌==◌, length,
  if◌then◌else◌,
}
use one_time_note.Base.Text.{Bytes, codes, bytes_eq, has_prefix}
use one_time_note.Assets.{join}

pub data Route : Type 0 where
  create_page get_config create_ticket static_missing health no_route : Route
  preview create_note open_note : (id : Bytes) → Route
  static_asset : (version asset : Bytes) → Route
  -- A path that is not clean is answered by the mux.
  redirect : ℕ → Route

-- The segments into which `http.ServeMux` splits a path that is clean, unescaped, a path that ends in a
-- slash having an empty last one, or the status of its redirection.
pub record Mux : Type 0 where
  pub segments : (method path : Bytes) → List Bytes ⊎ ℕ
  pub path_prefix :
      (method path a b : Bytes) (rest : List Bytes)
      → segments method path ≡ inl (a ∷ (b ∷ rest))
      → has_prefix path (b'/' ∷ (a ++ (b'/' ∷ []))) ≡ true

-- A pattern for GET matches HEAD too.
abbrev pub is_get : Bytes → Bool
is_get method = bytes_eq method (codes "GET") || bytes_eq method (codes "HEAD")

-- A wildcard of one segment does not match an empty one.
abbrev pub some_text : Bytes → Bool
some_text s = not (length s == 0)

unfoldable pub match_one : (method a : Bytes) → Route
match_one method a =
    if is_get method && length a == 0
    then create_page
    else if is_get method && bytes_eq a (codes "healthz")
    then health
    else no_route

unfoldable pub match_two : (method a b : Bytes) → Route
match_two method a b =
    if is_get method && bytes_eq a (codes "note") && some_text b
    then preview b
    else if is_get method && bytes_eq a (codes "api") && bytes_eq b (codes "config")
    then get_config
    else if bytes_eq method (codes "POST")
        && bytes_eq a (codes "api")
        && bytes_eq b (codes "tickets")
    then create_ticket
    else if is_get method && bytes_eq a (codes "static") && some_text b
    then static_missing
    else no_route

abbrev pub is_note_post : (method a b c : Bytes) → Bool
is_note_post method a b c =
    bytes_eq method (codes "POST")
    && bytes_eq a (codes "api")
    && bytes_eq b (codes "notes")
    && some_text c

-- Three segments, or more with those that follow them.
unfoldable pub match_more : (method a b c : Bytes) → List Bytes → Route
match_more method a b c rest =
    if is_get method && bytes_eq a (codes "static") && some_text b
    then static_asset b (join (c ∷ rest))
    else if is_note_post method a b c
    then elim rest [
      | [] ↦ create_note c
      | d ∷ [] ↦ if bytes_eq d (codes "open") then open_note c else no_route
      | _ ↦ no_route
    ]
    else no_route

unfoldable pub match_segments : (method : Bytes) → List Bytes → Route
match_segments method [] = no_route
match_segments method (a ∷ []) = match_one method a
match_segments method (a ∷ b ∷ []) = match_two method a b
match_segments method (a ∷ b ∷ c ∷ rest) = match_more method a b c rest

unfoldable pub match_request : Mux → (method path : Bytes) → Route
match_request X method path = elim (X.segments method path) [
  | inl segments ↦ match_segments method segments
  | inr status ↦ redirect status
]
