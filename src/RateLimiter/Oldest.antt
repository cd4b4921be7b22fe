-- ===== src/RateLimiter/Oldest.antt =====
-- The loop of `ensureBucketCapacity` that looks for the bucket that was last seen first.
use one_time_note.Base.{
  ◌+◌, ◌≤◌, ◌≡◌, ◌≢◌, ◌⊎◌, inl, inr, refl, List, [], ◌∷◌, none, some, arith, length, Bool-cases, ap,
  ◌∙◌, ◌==◌, ◌||◌,
}
use one_time_note.Base.Text.{Bytes, bytes_eq, eq_of_bytes_eq, bytes_eq_refl}
use one_time_note.Base.Int.{ltb_ℤ, pos}
use one_time_note.Clock.{Time, minute, sub, before}
use one_time_note.RateLimiter.{Rate, RateBucket, consider, find_oldest}
use one_time_note.RateLimiter.Table.{get, IsMap}

module _ {V : Type 0} where
  -- Where the empty key is not among the keys, the first key is not empty.
  ne_nil : (i : Bytes) (x : V) (l : List (Bytes × V)) → get [] ((i, x) ∷ l) ≡ none → length i ≢ 0
  unfolding get bytes_eq
  ne_nil [] x l h = cc
  ne_nil (c ∷ cs) x l h = λ p. omega arith

  get_nil :
      (i : Bytes) (x : V) (l : List (Bytes × V)) → get [] ((i, x) ∷ l) ≡ none → get [] l ≡ none
  unfolding get bytes_eq
  get_nil [] x l h = cc
  get_nil (c ∷ cs) x l h = h

module _ (R : Rate) (new_key : Bytes) (now : Time) where
  -- A bucket of another client that was not seen for a minute.
  pub record IsIdle (key : Bytes) (b : RateBucket R) : Type 0 where
    pub other : key ≢ new_key
    pub old : b.last_seen + minute ≤ now

  consider_cases :
      (key : Bytes) (b : RateBucket R) (acc : Bytes × Time)
      → (consider R new_key now (key, b) acc ≡ acc)
        ⊎ (IsIdle key b × (consider R new_key now (key, b) acc ≡ (key, b.last_seen)))
  unfolding consider
  consider_cases key b acc = elim (Bool-cases (bytes_eq key new_key)) [
    | inl e ↦ inl (rw e refl)
    | inr e ↦ elim (Bool-cases (ltb_ℤ (sub now b.last_seen) (pos minute))) [
      | inl busy ↦ inl (rw (e, busy) refl)
      | inr old ↦ elim (Bool-cases (length acc.0 == 0 || before b.last_seen acc.1)) [
        | inl better ↦ inr (
          record { other = λ p. ground (arith, p, bytes_eq_refl key); old = ground arith },
          rw (e, old, better) refl,
        )
        | inr worse ↦ inl (rw (e, old, worse) refl)
      ]
    ]
  ]

  -- What the loop finds is what it started from or an idle bucket.
  pub found_of_find_oldest :
      (l : List (Bytes × RateBucket R)) (acc : Bytes × Time)
      → IsMap l
      → (find_oldest R new_key now l acc ≡ acc)
        ⊎ ((k : Bytes) × (b : RateBucket R) × (get k l ≡ some b)
            × IsIdle k b
            × (find_oldest R new_key now l acc ≡ (k, b.last_seen)))
  unfolding find_oldest get IsMap
  found_of_find_oldest [] acc m = inl refl
  found_of_find_oldest ((i, x) ∷ l) acc (n, m) =
      elim (found_of_find_oldest l (consider R new_key now (i, x) acc) m) [
        | inr (k, b, held, idle, e) ↦ inr (
          k,
          b,
          ground (arith, held, n, eq_of_bytes_eq i k, ap (λ (y : Bytes). get y l)),
          idle,
          e,
        )
        | inl e ↦ elim (consider_cases i x acc) [
          | inl same ↦ inl (e ∙ same)
          | inr (idle, better) ↦ inr (i, x, ground (arith, bytes_eq_refl i), idle, e ∙ better)
        ]
      ]

  consider-le :
      (key : Bytes) (b : RateBucket R) (k : Bytes) (t : Time)
      → length key ≢ 0
      → length k ≢ 0
      → (length (consider R new_key now (key, b) (k, t)).0 ≢ 0)
        × ((consider R new_key now (key, b) (k, t)).1 ≤ t)
  unfolding consider
  consider-le key b k t n h = (ground arith, ground arith)

  consider-IsIdle :
      (key : Bytes) (b : RateBucket R) (k : Bytes) (t : Time)
      → length key ≢ 0
      → IsIdle key b
      → (length (consider R new_key now (key, b) (k, t)).0 ≢ 0)
        × ((consider R new_key now (key, b) (k, t)).1 ≤ b.last_seen)
  unfolding consider
  consider-IsIdle key b k t n h = (
    ground (arith, h.other, h.old, eq_of_bytes_eq key new_key),
    ground (arith, h.other, h.old, eq_of_bytes_eq key new_key),
  )

  -- With no empty key among the clients, the loop ends at a time that no idle bucket was last seen
  -- before.
  find_oldest-le :
      (l : List (Bytes × RateBucket R)) (k : Bytes) (t : Time)
      → get [] l ≡ none
      → length k ≢ 0
      → (length (find_oldest R new_key now l (k, t)).0 ≢ 0)
        × ((find_oldest R new_key now l (k, t)).1 ≤ t)
  unfolding find_oldest get
  find_oldest-le [] k t n h = (h, omega arith)
  find_oldest-le ((i, x) ∷ l) k t n h =
      let c = consider R new_key now (i, x) (k, t) in
      let (named, less) = consider-le i x k t (ne_nil i x l n) h in
      let (found, least) = find_oldest-le l c.0 c.1 (get_nil i x l n) named in
      (found, omega (arith, less, least))

  pub find_oldest-least :
      (l : List (Bytes × RateBucket R)) (k : Bytes) (t : Time)
      → get [] l ≡ none
      → (j : Bytes) (b : RateBucket R) → get j l ≡ some b
      → IsIdle j b
      → (length (find_oldest R new_key now l (k, t)).0 ≢ 0)
        × ((find_oldest R new_key now l (k, t)).1 ≤ b.last_seen)
  unfolding find_oldest get
  find_oldest-least [] k t n j b h idle = cc
  find_oldest-least ((i, x) ∷ l) k t n j b h idle =
      let c = consider R new_key now (i, x) (k, t) in
      elim (Bool-cases (bytes_eq i j)) [
        | inr other ↦ find_oldest-least l c.0 c.1 (get_nil i x l n) j b (rw other at h) idle
        | inl same ↦
            let here : x ≡ b = ground (arith, same, h) in
            let at : IsIdle i x = record {
              other = ground (arith, idle.other, eq_of_bytes_eq i j same);
              old = ground (arith, idle.old, here);
            } in
            let (named, less) = consider-IsIdle i x k t (ne_nil i x l n) at in
            let (found, least) = find_oldest-le l c.0 c.1 (get_nil i x l n) named in
            (found, omega (arith, less, least, ap (λ (y : RateBucket R). y.last_seen) here))
      ]
