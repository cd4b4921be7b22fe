-- ===== src/NoteService/Validity.antt =====
-- What `validMetadata` and `normalizeLifetime` accept, in plain arithmetic.
use one_time_note.Base.{ℕ, ◌+◌, ◌-◌, ◌^◌, ◌<◌, ◌≤◌, ◌≡◌, ◌↔◌, refl, true, length, arith}
use one_time_note.Base.Int.{ℤ, pos}
use one_time_note.Errors.{ok}
use one_time_note.Records.{Metadata}
use one_time_note.NoteService.{Limits, valid_metadata, normalize_lifetime, min_note_lifetime}

pub record IsValid (s : Limits) (m : Metadata) : Type 0 where
  pub created : 0 < m.created_at
  pub ordered : m.created_at ≤ m.expires_at
  pub bounded : m.expires_at ≤ m.created_at + s.max_lifetime
  pub verifier : length m.burn_verifier ≡ 32

module _ (s : Limits) (m : Metadata) where
  pub valid_metadata-IsValid : s.max_lifetime < 2 ^ 63 - 1 → valid_metadata s m ≡ true → IsValid s m
  unfolding valid_metadata
  valid_metadata-IsValid fits h = ground arith

  pub IsValid-valid_metadata : IsValid s m → valid_metadata s m ≡ true
  unfolding valid_metadata
  IsValid-valid_metadata h = ground arith

-- A lifetime is accepted unchanged exactly when it lies between one hour and the limit.
pub normalize_lifetime_iff :
    (s : Limits) (l l' : ℤ)
    → (normalize_lifetime s l ≡ ok l')
      ↔ ((n : ℕ) × (l ≡ pos n) × (l' ≡ pos n) × (min_note_lifetime ≤ n) × (n ≤ s.max_lifetime))
unfolding normalize_lifetime
normalize_lifetime_iff s (pos n) l' =
    (λ h. (n, refl, ground arith, ground arith, ground arith), λ h. ground arith)
normalize_lifetime_iff s l l' = (λ h. cc, λ h. cc)
