-- ===== src/Application/Posting.antt =====
-- The routes that store and open notes are those of POST requests to the API.
use one_time_note.Base.{
  ℕ, ◌≡◌, ◌⊎◌, refl, subst, Bool, true, false, List, [], ◌∷◌, ◌++◌, arith, inl, inr,
}
use one_time_note.Base.Text.{Bytes, codes, eq_of_bytes_eq, has_prefix}
use one_time_note.Application.Routing.{
  Route, create_note, open_note, redirect, Mux, is_note_post, match_one, match_two, match_more,
  match_segments, match_request,
}

-- Whether the endpoint of a route stores or deletes notes.
abbrev pub is_write : Route → Bool
is_write (create_note id) = true
is_write (open_note id) = true
is_write _ = false

match_one-is_write : (method a : Bytes) → is_write (match_one method a) ≡ false
unfolding match_one
match_one-is_write method a = ground arith

match_two-is_write : (method a b : Bytes) → is_write (match_two method a b) ≡ false
unfolding match_two
match_two-is_write method a b = ground arith

match_more-is_write :
    (method a b c : Bytes) (rest : List Bytes)
    → is_write (match_more method a b c rest) ≡ true
    → is_note_post method a b c ≡ true
unfolding match_more
match_more-is_write method a b c rest h = ground (arith, h)

match_segments-is_write :
    (X : Mux) (method path : Bytes) (segments : List Bytes)
    → X.segments method path ≡ inl segments
    → is_write (match_segments method segments) ≡ true
    → (method ≡ codes "POST") × (has_prefix path (codes "/api/") ≡ true)
unfolding match_segments
match_segments-is_write X method path [] e h = cc
match_segments-is_write X method path (a ∷ []) e h = absurd (cc (match_one-is_write method a, h))
match_segments-is_write X method path (a ∷ b ∷ []) e h =
    absurd (cc (match_two-is_write method a b, h))
match_segments-is_write X method path (a ∷ b ∷ c ∷ rest) e h =
    let posted = match_more-is_write method a b c rest h in
    let is_api = eq_of_bytes_eq a (codes "api") (ground (arith, posted)) in
    (
      eq_of_bytes_eq method (codes "POST") (ground (arith, posted)),
      subst (λ x. has_prefix path (b'/' ∷ (x ++ (b'/' ∷ []))) ≡ true) is_api
          (X.path_prefix method path a b (c ∷ rest) e),
    )

pub match_request-is_write :
    (X : Mux) (method path : Bytes)
    → is_write (match_request X method path) ≡ true
    → (method ≡ codes "POST") × (has_prefix path (codes "/api/") ≡ true)
unfolding match_request
match_request-is_write X method path h = by_segments (X.segments method path) refl h
  where
    by_segments :
        (found : List Bytes ⊎ ℕ)
        → X.segments method path ≡ found
        → is_write (elim found [
          | inl segments ↦ match_segments method segments
          | inr status ↦ redirect status
        ])
          ≡ true
        → (method ≡ codes "POST") × (has_prefix path (codes "/api/") ≡ true)
    by_segments (inl segments) e h = match_segments-is_write X method path segments e h
    by_segments (inr status) e h = cc
