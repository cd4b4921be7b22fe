-- ===== src/Configuration/Sizes.antt =====
-- A size is read exactly, or refused: its product does not overflow.
use native.Mathlib.Nat.{le-div_iff_mul-le}
use one_time_note.Base.{
  ℕ, ◌-◌, ◌*◌, ◌/◌, ◌^◌, ◌<◌, ◌≤◌, ◌≡◌, ◌≢◌, ◌↔◌, refl, false, some, [], ◌∷◌, ◌⊎◌, length, arith,
  Bool-cases, Option-cases, inl, inr, sym, ap, ◌∙◌, ◌==◌,
}
use one_time_note.Base.Text.{Bytes}
use one_time_note.Base.Int.{ℤ, pos, negsuc, ltb_ℤ, wrap64, wrap64_small}
use one_time_note.Net.{Net}
use one_time_note.Configuration.{
  parse_int, amount_in, suffixes, split_suffix, parse_byte_size, parse_optional_byte_size,
}

fits_of_le : (n m : ℕ) → 0 < m → n ≤ (2 ^ 63 - 1) / m → n * m < 2 ^ 63
fits_of_le n m some_m h = omega (arith, (le-div_iff_mul-le {x = n} {y = 2 ^ 63 - 1} some_m).0 h)

le_of_fits : (n m : ℕ) → 0 < m → n * m < 2 ^ 63 → n ≤ (2 ^ 63 - 1) / m
le_of_fits n m some_m h = (le-div_iff_mul-le {x = n} {y = 2 ^ 63 - 1} some_m).1 (omega arith)

amount_in-pos :
    (value : Bytes) (m n : ℕ)
    → 0 < m
    → parse_int value ≡ some (pos n)
    → n * m < 2 ^ 63
    → amount_in value m ≡ some (pos (n * m))
unfolding amount_in parse_int
amount_in-pos [] m n some_m h fits = cc
amount_in-pos (c ∷ s) m n some_m h fits =
    ground (arith, h, wrap64_small (n * m) fits, le_of_fits n m some_m fits)

amount_in-le :
    (value : Bytes) (m n : ℕ) (z : ℤ)
    → parse_int value ≡ some (pos n)
    → amount_in value m ≡ some z
    → (n ≤ (2 ^ 63 - 1) / m) × (z ≡ wrap64 (pos (n * m)))
unfolding amount_in
amount_in-le value m n z e h = (ground (arith, e, h), ground (arith, e, h))

pos_of_amount_in :
    (value : Bytes) (m : ℕ) (z : ℤ)
    → 0 < m
    → amount_in value m ≡ some z
    → (n : ℕ) × (parse_int value ≡ some (pos n)) × (n * m < 2 ^ 63) × (z ≡ pos (n * m))
unfolding amount_in
pos_of_amount_in value m z some_m h = elim (Option-cases (parse_int value)) [
  | inl e ↦ absurd (ground (arith, e, h))
  | inr (pos n, e) ↦
      let (le, same) = amount_in-le value m n z e h in
      let fits = fits_of_le n m some_m le in (n, e, fits, same ∙ wrap64_small (n * m) fits)
  | inr (negsuc n, e) ↦ absurd (ground (arith, e, h))
]

module _ (N : Net) where
  split_suffix-pos : (value : Bytes) → 0 < (split_suffix N value suffixes).1
  unfolding split_suffix
  split_suffix-pos value = ground arith

  not_blank :
      (t : Bytes)
      → length (N.trim_space t) ≢ 0
      → let (number, multiplier) = split_suffix N (N.trim_space t) suffixes in
        parse_byte_size N t ≡ amount_in number multiplier
  unfolding parse_byte_size
  not_blank t k = elim (Bool-cases (length (N.trim_space t) == 0)) [
    | inl e ↦ absurd (k (ground arith))
    | inr e ↦ rw e refl
  ]

  -- A text that is not blank is read as a size exactly if the text in front of its suffix is a number of
  -- no negative value whose product with the suffix's multiplier fits into int64, and the size is that
  -- product, without wrap-around.
  pub parse_byte_size_iff :
      (text : Bytes) (z : ℤ)
      → length (N.trim_space text) ≢ 0
      → let (number, multiplier) = split_suffix N (N.trim_space text) suffixes in
        (parse_byte_size N text ≡ some z) ↔ (
          (n : ℕ) × (parse_int number ≡ some (pos n))
          × (n * multiplier < 2 ^ 63)
          × (z ≡ pos (n * multiplier)))
  parse_byte_size_iff text z h =
      let s = split_suffix N (N.trim_space text) suffixes in
      let some_m = split_suffix-pos (N.trim_space text) in
      (
        λ e. pos_of_amount_in s.0 s.1 z some_m (sym (not_blank text h) ∙ e),
        λ (n, read, fits, same).
            not_blank text h ∙ amount_in-pos s.0 s.1 n some_m read fits ∙ ap some (sym same),
      )

  -- A size from the environment is the default or lies between the limits, the default being taken for a
  -- blank text only.
  pub parse_optional_byte_size_within :
      (getenv : Bytes → Bytes) (name : Bytes) (default_value min_value max_value z : ℤ)
      → parse_optional_byte_size N getenv name default_value min_value max_value ≡ some z
      → ((length (N.trim_space (getenv name)) ≡ 0) × (z ≡ default_value))
        ⊎ ((parse_byte_size N (N.trim_space (getenv name)) ≡ some z)
            × (ltb_ℤ z min_value ≡ false)
            × (ltb_ℤ max_value z ≡ false))
  unfolding parse_optional_byte_size
  parse_optional_byte_size_within getenv name default_value min_value max_value z h =
      elim (Bool-cases (length (N.trim_space (getenv name)) == 0)) [
        | inl e ↦ inl (ground arith, ground (arith, e, h))
        | inr e ↦ elim (Option-cases (parse_byte_size N (N.trim_space (getenv name)))) [
          | inl none_read ↦ absurd (ground (arith, e, none_read, h))
          | inr (v, read) ↦
              let within = rw (e, read) at h in
              inr (ground (arith, read, within), ground (arith, within), ground (arith, within))
        ]
      ]
