-- ===== src/RateLimiter/Table.antt =====
-- The map from client keys to buckets of rate_limiter.go, as the pairs in the order in which a `range`
-- visits them. Go leaves that order open, so nothing is assumed of it.
use one_time_note.Base.{
  ◌+◌, ◌≤◌, ◌<◌, ◌≡◌, ◌≢◌, refl, ap, sym, ◌⊎◌, subst, ◌∙◌, Bool-cases, inl, inr, Bool, true, false,
  List, [], ◌∷◌, Option, none, some, arith, length, if◌then◌else◌,
}
use one_time_note.Base.Text.{Bytes, bytes_eq, bytes_eq_refl, eq_of_bytes_eq}

module _ {V : Type 0} where
  unfoldable pub get : Bytes → List (Bytes × V) → Option V
  get k [] = none
  get k ((j, v) ∷ l) = let found = get k l in if bytes_eq j k then some v else found

  unfoldable pub remove : Bytes → List (Bytes × V) → List (Bytes × V)
  remove k [] = []
  remove k ((j, v) ∷ l) = let rest = remove k l in if bytes_eq j k then rest else (j, v) ∷ rest

  -- `m[k] = v`: the value of a key that is there changes in place.
  unfoldable pub set : Bytes → V → List (Bytes × V) → List (Bytes × V)
  set k v [] = (k, v) ∷ []
  set k v ((j, w) ∷ l) = let rest = set k v l in if bytes_eq j k then (k, v) ∷ l else (j, w) ∷ rest

  -- The pairs that a `range` with `delete` leaves.
  unfoldable pub keep : (V → Bool) → List (Bytes × V) → List (Bytes × V)
  keep test [] = []
  keep test ((j, v) ∷ l) = let rest = keep test l in if test v then (j, v) ∷ rest else rest

module _ {V : Type 0} where
  pub get-remove-ne : (k j : Bytes) (l : List (Bytes × V)) → j ≢ k → get j (remove k l) ≡ get j l
  unfolding get remove
  get-remove-ne k j [] n = refl
  get-remove-ne k j ((i, v) ∷ l) n = ground (
    arith,
    eq_of_bytes_eq k j,
    eq_of_bytes_eq i k,
    eq_of_bytes_eq i j,
    bytes_eq_refl j,
    get-remove-ne k j l n,
  )

  pub get-remove : (k : Bytes) (l : List (Bytes × V)) → get k (remove k l) ≡ none
  unfolding get remove
  get-remove k [] = refl
  get-remove k ((i, v) ∷ l) = ground (arith, get-remove k l)

  pub length-remove-le : (k : Bytes) (l : List (Bytes × V)) → length (remove k l) ≤ length l
  unfolding remove
  length-remove-le k [] = omega arith
  length-remove-le k ((i, v) ∷ l) = ground (arith, length-remove-le k l)

  -- A key that is there takes at least one pair with it.
  pub length-remove :
      (k : Bytes) (l : List (Bytes × V)) (v : V) → get k l ≡ some v → length (remove k l) < length l
  unfolding get remove
  length-remove k [] v h = cc
  length-remove k ((i, w) ∷ l) v h = ground (arith, length-remove k l v, length-remove-le k l)

  pub get-set : (k : Bytes) (v : V) (l : List (Bytes × V)) → get k (set k v l) ≡ some v
  unfolding get set
  get-set k v [] = ground (arith, bytes_eq_refl k)
  get-set k v ((i, w) ∷ l) = ground (arith, bytes_eq_refl k, get-set k v l)

  pub get-set-ne :
      (k j : Bytes) (v : V) (l : List (Bytes × V)) → j ≢ k → get j (set k v l) ≡ get j l
  unfolding get set
  get-set-ne k j v [] n = ground (arith, eq_of_bytes_eq k j)
  get-set-ne k j v ((i, w) ∷ l) n =
      ground (arith, eq_of_bytes_eq k j, eq_of_bytes_eq i k, get-set-ne k j v l)

  pub length-set-some :
      (k : Bytes) (v w : V) (l : List (Bytes × V))
      → get k l ≡ some w
      → length (set k v l) ≡ length l
  unfolding get set
  length-set-some k v w [] h = cc
  length-set-some k v w ((i, x) ∷ l) h = ground (arith, length-set-some k v w l)

  pub length-set-none :
      (k : Bytes) (v : V) (l : List (Bytes × V)) → length (set k v l) ≤ length l + 1
  unfolding set
  length-set-none k v [] = omega arith
  length-set-none k v ((i, x) ∷ l) = ground (arith, length-set-none k v l)

  pub length-keep : (test : V → Bool) (l : List (Bytes × V)) → length (keep test l) ≤ length l
  unfolding keep
  length-keep test [] = omega arith
  length-keep test ((i, x) ∷ l) = ground (arith, length-keep test l)

module _ {V : Type 0} where
  -- No key stands in two pairs, as in every map of Go.
  unfoldable pub IsMap : List (Bytes × V) → Type 0
  IsMap [] = Unit
  IsMap ((k, v) ∷ l) = (get k l ≡ none) × IsMap l

  pub get-keep-none :
      (test : V → Bool) (k : Bytes) (l : List (Bytes × V))
      → get k l ≡ none
      → get k (keep test l) ≡ none
  unfolding get keep
  get-keep-none test k [] h = refl
  get-keep-none test k ((i, x) ∷ l) h = ground (arith, get-keep-none test k l)

  pub keep-IsMap : (test : V → Bool) (l : List (Bytes × V)) → IsMap l → IsMap (keep test l)
  unfolding keep IsMap
  keep-IsMap test [] h = tt
  keep-IsMap test ((i, x) ∷ l) (n, h) = elim (Bool-cases (test x)) [
    | inl e ↦ rw e (get-keep-none test i l n, keep-IsMap test l h)
    | inr e ↦ rw e (keep-IsMap test l h)
  ]

  pub get-remove-none :
      (k j : Bytes) (l : List (Bytes × V)) → get j l ≡ none → get j (remove k l) ≡ none
  unfolding get remove
  get-remove-none k j [] h = refl
  get-remove-none k j ((i, x) ∷ l) h = ground (arith, get-remove-none k j l)

  pub remove-IsMap : (k : Bytes) (l : List (Bytes × V)) → IsMap l → IsMap (remove k l)
  unfolding remove IsMap
  remove-IsMap k [] h = tt
  remove-IsMap k ((i, x) ∷ l) (n, h) = elim (Bool-cases (bytes_eq i k)) [
    | inl e ↦ rw e (remove-IsMap k l h)
    | inr e ↦ rw e (get-remove-none k i l n, remove-IsMap k l h)
  ]

  pub set-IsMap : (k : Bytes) (v : V) (l : List (Bytes × V)) → IsMap l → IsMap (set k v l)
  unfolding set IsMap get
  set-IsMap k v [] h = (refl, tt)
  set-IsMap k v ((i, x) ∷ l) (n, h) = elim (Bool-cases (bytes_eq i k)) [
    | inl e ↦ rw e (subst (λ (y : Bytes). get y l ≡ none) (eq_of_bytes_eq i k e) n, h)
    | inr e ↦ rw e (get-set-ne k i v l (λ p. not_self i k p e) ∙ n, set-IsMap k v l h)
  ]
    where
      not_self : (a b : Bytes) → a ≡ b → bytes_eq a b ≢ false
      not_self a b p e = cc (p, e, bytes_eq_refl a)

  pub get-keep-some :
      (test : V → Bool) (k : Bytes) (v : V) (l : List (Bytes × V))
      → get k l ≡ some v
      → test v ≡ true
      → get k (keep test l) ≡ some v
  unfolding get keep
  get-keep-some test k v [] h t = cc
  get-keep-some test k v ((i, x) ∷ l) h t = ground (arith, get-keep-some test k v l)

  -- Where no key stands twice, what is kept was there.
  pub get_of_get-keep :
      (test : V → Bool) (k : Bytes) (v : V) (l : List (Bytes × V))
      → IsMap l
      → get k (keep test l) ≡ some v
      → get k l ≡ some v
  unfolding get keep IsMap
  get_of_get-keep test k v [] m h = h
  get_of_get-keep test k v ((i, x) ∷ l) (n, m) h =
      ground (arith, get_of_get-keep test k v l m, eq_of_bytes_eq i k, ap (λ (y : Bytes). get y l))

  -- What a removal or a write leaves under a key was there before, or is what was written.
  pub get_of_get-remove :
      (k j : Bytes) (v : V) (l : List (Bytes × V)) → get j (remove k l) ≡ some v → get j l ≡ some v
  get_of_get-remove k j v l h = elim (Bool-cases (bytes_eq k j)) [
    | inl e ↦ cc (h, ap (λ (x : Bytes). get x (remove k l)) (eq_of_bytes_eq k j e), get-remove k l)
    | inr e ↦ sym (get-remove-ne k j l (λ p. cc (e, p, bytes_eq_refl j))) ∙ h
  ]

  pub get_of_get-set :
      (k j : Bytes) (v w : V) (l : List (Bytes × V))
      → get j (set k v l) ≡ some w
      → (w ≡ v) ⊎ (get j l ≡ some w)
  get_of_get-set k j v w l h = elim (Bool-cases (bytes_eq k j)) [
    | inl e ↦
        inl (cc (h, ap (λ (x : Bytes). get x (set k v l)) (eq_of_bytes_eq k j e), get-set k v l))
    | inr e ↦ inr (sym (get-set-ne k j v l (λ p. cc (e, p, bytes_eq_refl j))) ∙ h)
  ]
