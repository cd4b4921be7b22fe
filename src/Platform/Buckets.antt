-- ===== src/Platform/Buckets.antt =====
-- go.etcd.io/bbolt: a bucket as a map from keys to values.
use one_time_note.Base.{◌≡◌, Option, none, some, List, [], ◌∷◌, All, if◌then◌else◌}
use one_time_note.Base.Text.{Bytes, bytes_eq}

-- The value of the first pair with the key.
unfoldable pub lookup : Bytes → List (Bytes × Bytes) → Option Bytes
lookup k [] = none
lookup k ((j, v) ∷ l) = if bytes_eq j k then some v else lookup k l

-- `entries` is what `ForEach` visits, in its order. `put` and `delete` are the contents after a call
-- that returned no error.
pub record Bolt : Type 1 where
  pub Bucket : Type 0
  pub get : Bucket → Bytes → Option Bytes
  pub put : Bucket → Bytes → Bytes → Bucket
  pub delete : Bucket → Bytes → Bucket
  pub entries : Bucket → List (Bytes × Bytes)
  pub get-put :
      (b : Bucket) (k v j : Bytes) → get (put b k v) j ≡ (if bytes_eq k j then some v else get b j)
  pub get-delete :
      (b : Bucket) (k j : Bytes) → get (delete b k) j ≡ (if bytes_eq k j then none else get b j)
  -- `ForEach` visits every pair that the bucket holds, and no other.
  pub visits_all : (b : Bucket) (k : Bytes) → lookup k (entries b) ≡ get b k
  pub visits_held : (b : Bucket) → All (λ e. get b e.0 ≡ some e.1) (entries b)
