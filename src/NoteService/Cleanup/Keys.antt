-- ===== src/NoteService/Cleanup/Keys.antt =====
-- Which keys `Cleanup` collects from a bucket: those whose value the test picks, and no other.
use one_time_note.Base.{
  ◌≡◌, refl, sym, ◌∙◌, Bool, true, false, ◌||◌, List, [], ◌∷◌, Option, none, some, arith, All, map,
  length, replicate, take-length-append, Bool-cases, inl, inr,
}
use one_time_note.Base.Text.{Bytes, bytes_eq, eq_of_bytes_eq}
use one_time_note.Platform.{Platform}
use one_time_note.Platform.Buckets.{lookup}
use one_time_note.NoteService.{copy_id}
use one_time_note.NoteService.Cleanup.{keys_where}

unfoldable pub contains : Bytes → List Bytes → Bool
contains j [] = false
contains j (k ∷ ks) = bytes_eq k j || contains j ks

-- The test at the value that a key has, if it has one.
abbrev pub holds : (Bytes → Bool) → Option Bytes → Bool
holds test none = false
holds test (some v) = test v

pub copy_id_of_length : (k : Bytes) → length k ≡ 32 → copy_id k ≡ k
unfolding copy_id
copy_id_of_length k h = take-length-append 32 k (replicate 32 0) h

pub map-copy_id : (ks : List Bytes) → All (λ k. length k ≡ 32) ks → map copy_id ks ≡ ks
map-copy_id [] h = refl
map-copy_id (k ∷ ks) (hk, h) = cc (copy_id_of_length k hk, map-copy_id ks h)

module _ (P : Platform) (b : P.Bucket) (test : Bytes → Bool) (j : Bytes) where
  contains-holds :
      (es : List (Bytes × Bytes))
      → All (λ e. P.get b e.0 ≡ some e.1) es
      → contains j (keys_where test es) ≡ true
      → holds test (P.get b j) ≡ true
  unfolding contains keys_where
  contains-holds [] h c = cc
  contains-holds ((k, v) ∷ es) (held, h) c = ground (arith, eq_of_bytes_eq k j, contains-holds es h)

  lookup-contains :
      (es : List (Bytes × Bytes))
      → holds test (lookup j es) ≡ true
      → contains j (keys_where test es) ≡ true
  unfolding contains keys_where lookup
  lookup-contains [] h = cc
  lookup-contains ((k, v) ∷ es) h = ground (arith, lookup-contains es)

  -- A key is collected exactly when the test picks its value.
  pub contains-keys_where : contains j (keys_where test (P.entries b)) ≡ holds test (P.get b j)
  contains-keys_where = elim (Bool-cases (contains j (keys_where test (P.entries b)))) [
    | inl c ↦ c ∙ sym (contains-holds (P.entries b) (P.visits_held b) c)
    | inr c ↦ elim (Bool-cases (holds test (P.get b j))) [
      | inl h ↦ cc (lookup-contains (P.entries b) (rw (P.visits_all b j) h))
      | inr h ↦ c ∙ sym h
    ]
  ]

module _ (P : Platform) (b : P.Bucket) (test : Bytes → Bool) where
  keys_where-length :
      ((k v : Bytes) → P.get b k ≡ some v → length k ≡ 32)
      → (es : List (Bytes × Bytes)) → All (λ e. P.get b e.0 ≡ some e.1) es
      → All (λ k. length k ≡ 32) (keys_where test es)
  unfolding keys_where
  keys_where-length ids [] h = tt
  keys_where-length ids ((k, v) ∷ es) (held, h) = elim (Bool-cases (test v)) [
    | inl t ↦ rw t (ids k v held, keys_where-length ids es h)
    | inr t ↦ rw t (keys_where-length ids es h)
  ]

  -- Over a bucket whose keys are IDs, `copy` changes no collected key.
  pub copy_id-keys_where :
      ((k v : Bytes) → P.get b k ≡ some v → length k ≡ 32)
      → map copy_id (keys_where test (P.entries b)) ≡ keys_where test (P.entries b)
  copy_id-keys_where ids = map-copy_id _ (keys_where-length ids (P.entries b) (P.visits_held b))
