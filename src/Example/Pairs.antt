-- ===== src/Example/Pairs.antt =====
-- Buckets as association lists, whose later pairs are hidden by earlier ones of the same key.
use one_time_note.Base.{
  ◌≡◌, refl, none, some, List, [], ◌∷◌, All, arith, if◌then◌else◌, Bool-cases, inl, inr,
}
use one_time_note.Base.Text.{Bytes, bytes_eq, bytes_eq_refl, eq_of_bytes_eq}
use one_time_note.Platform.Buckets.{Bolt, lookup}

abbrev pub Pairs : Type 0
Pairs = List (Bytes × Bytes)

unfoldable pub without : Bytes → Pairs → Pairs
without k [] = []
without k ((j, v) ∷ l) = let rest = without k l in if bytes_eq j k then rest else (j, v) ∷ rest

-- The pairs that later ones of the same key do not hide.
unfoldable pub visible : Pairs → Pairs
unfolding without
visible [] = []
visible ((k, v) ∷ l) = (k, v) ∷ without k (visible l)

pub lookup-without :
    (k j : Bytes) (l : Pairs) → lookup j (without k l) ≡ (if bytes_eq k j then none else lookup j l)
unfolding lookup without
lookup-without k j [] = ground arith
lookup-without k j ((i, v) ∷ l) = ground (
  arith,
  lookup-without k j l,
  eq_of_bytes_eq i k,
  eq_of_bytes_eq i j,
  eq_of_bytes_eq k j,
  bytes_eq_refl i,
  bytes_eq_refl j,
)

pub lookup-visible : (k : Bytes) (l : Pairs) → lookup k (visible l) ≡ lookup k l
unfolding lookup visible
lookup-visible k [] = refl
lookup-visible k ((j, v) ∷ l) = ground (arith, lookup-without j k (visible l), lookup-visible k l)

-- The pairs of a list whose keys differ from `k` are found behind a pair of key `k` too.
All-without :
    (k v : Bytes) (b es : Pairs)
    → All (λ e. lookup e.0 b ≡ some e.1) es
    → All (λ e. lookup e.0 ((k, v) ∷ b) ≡ some e.1) (without k es)
unfolding lookup without
All-without k v b [] h = tt
All-without k v b ((j, w) ∷ es) (hj, h) = elim (Bool-cases (bytes_eq j k)) [
  | inl same ↦ rw same (All-without k v b es h)
  | inr other ↦
      rw other (ground (arith, eq_of_bytes_eq k j, bytes_eq_refl k), All-without k v b es h)
]

pub visible_held : (b : Pairs) → All (λ e. lookup e.0 b ≡ some e.1) (visible b)
unfolding lookup visible
visible_held [] = tt
visible_held ((k, v) ∷ l) =
    (ground (arith, bytes_eq_refl k), All-without k v l (visible l) (visible_held l))

pub get-put_lem :
    (b : Pairs) (k v j : Bytes)
    → lookup j ((k, v) ∷ b) ≡ (if bytes_eq k j then some v else lookup j b)
unfolding lookup
get-put_lem b k v j = refl

abbrev pub bolt : Bolt
bolt = record {
  Bucket = Pairs;
  get = λ b k. lookup k b;
  put = λ b k v. (k, v) ∷ b;
  delete = λ b k. without k b;
  entries = visible;
  get-put = get-put_lem;
  get-delete = λ b k j. lookup-without k j b;
  visits_all = λ b k. lookup-visible k b;
  visits_held = visible_held;
}
